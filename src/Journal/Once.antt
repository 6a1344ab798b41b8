-- ===== src/Journal/Once.antt =====
-- The keys of the journal (api-server/internal/ledger/ledger.go).
use rides_api.Base.{
  ℕ, ◌≡◌, refl, Bool, true, false, not, ◌&&◌, none, List, [], ◌∷◌, suc, arith, ltb, length, String,
  if◌then◌else◌,
}
use rides_api.Base.Action.{is_ok, transaction, Keeps-transaction}
use rides_api.Journal.Posting.{
  Line, Entry, Header, Journal, Outage, check_entry, insert_lines, insert_entry, post, has_key,
  creator,
}
use text.Mathlib.TextPositions.{compare_refl}

insert_lines-entries :
    (out : Outage) (i id : ℕ) (ls : List Line) (j : Journal)
    → (insert_lines out i id ls j).1.entries ≡ j.entries
unfolding insert_lines
insert_lines-entries out i id [] j = refl
insert_lines-entries out i id (l ∷ ls) j =
    let rest =
      insert_lines-entries out (suc i) id ls
        (record j { lines = (record { entry_id = id; line = l }) ∷ j.lines }) in
    ground arith

-- No two entries have the same key: the constraint UNIQUE (idempotency_key).
abbrev pub keys_differ : List Header → Bool
keys_differ [] = true
keys_differ (h ∷ hs) = not (has_key h.idempotency_key hs) && keys_differ hs

post-keys :
    (out : Outage) (e : Entry) (j : Journal)
    → keys_differ j.entries ≡ true
    → keys_differ (post out e j).1.entries ≡ true
unfolding post
post-keys out e j h =
    ground (arith, insert_lines-entries out 0 j.next_id e.lines (insert_entry e.header j).1)

creator-key : (h : Header) → (creator h).idempotency_key ≡ h.idempotency_key
creator-key h = ground arith

marks :
    (out : Outage) (e : Entry) (j : Journal)
    → is_ok (post out e j).0 ≡ true
    → has_key e.header.idempotency_key (post out e j).1.entries ≡ true
unfolding post
marks out e j h = ground (
  arith,
  insert_lines-entries out 0 j.next_id e.lines (insert_entry e.header j).1,
  compare_refl e.header.idempotency_key,
  creator-key e.header,
)

skips :
    (out : Outage) (e : Entry) (j : Journal)
    → has_key e.header.idempotency_key j.entries ≡ true
    → (post out e j).1 ≡ j
unfolding post
skips out e j h = ground arith

first_line-fails :
    (out : Outage) (id : ℕ) (ls : List Line) (j : Journal)
    → ltb (length ls) 2 ≡ false
    → out.line_fails 0 ≡ true
    → (is_ok (insert_lines out 0 id ls j).0 ≡ false) × ((insert_lines out 0 id ls j).1 ≡ j)
unfolding insert_lines
first_line-fails out id [] j two down = ground arith
first_line-fails out id (l ∷ ls) j two down = ground arith

half :
    (out : Outage) (e : Entry) (j : Journal)
    → check_entry e ≡ none
    → has_key e.header.idempotency_key j.entries ≡ false
    → out.entry_fails ≡ false
    → out.line_fails 0 ≡ true
    → let j' = (post out e j).1 in
      (is_ok (post out e j).0 ≡ false)
      × (j'.lines ≡ j.lines)
      × (has_key e.header.idempotency_key j'.entries ≡ true)
unfolding post check_entry
half out e j fine new up down =
    let two : ltb (length e.lines) 2 ≡ false = ground arith in
    ground (
      arith,
      first_line-fails out j.next_id e.lines (insert_entry e.header j).1 two down,
      compare_refl e.header.idempotency_key,
      creator-key e.header,
    )

-- An economic event is posted once: after a call of `Post` that succeeds, another one with the same
-- key changes nothing, whatever its lines are and whether or not it succeeds.
pub post_once :
    (out out' : Outage) (e e' : Entry) (j : Journal)
    → is_ok (post out e j).0 ≡ true
    → e'.header.idempotency_key ≡ e.header.idempotency_key
    → let j' = (post out e j).1 in (post out' e' j').1 ≡ j'
post_once out out' e e' j h same = skips out' e' (post out e j).1 (rw same (marks out e j h))

-- Calls of `Post`, each in a transaction of its caller or not.
pub later_posts : List (Bool × Outage × Entry) → Journal → Journal
later_posts [] j = j
later_posts ((in_tx, out, e) ∷ es) j =
    later_posts es (if in_tx then (transaction (post out e) j).1 else (post out e j).1)

post-keeps :
    (key : String) (out : Outage) (e : Entry) (j : Journal)
    → has_key key j.entries ≡ true
    → has_key key (post out e j).1.entries ≡ true
unfolding post
post-keeps key out e j h =
    ground (arith, insert_lines-entries out 0 j.next_id e.lines (insert_entry e.header j).1)

later_posts-keeps :
    (key : String) (es : List (Bool × Outage × Entry)) (j : Journal)
    → has_key key j.entries ≡ true
    → has_key key (later_posts es j).entries ≡ true
unfolding later_posts
later_posts-keeps key [] j h = h
later_posts-keeps key ((true, out, e) ∷ es) j h =
    later_posts-keeps key es (transaction (post out e) j).1 (
      Keeps-transaction (λ x. has_key key x.entries ≡ true) (post out e)
        (λ x k fine. post-keeps key out e x k) j h)
later_posts-keeps key ((false, out, e) ∷ es) j h =
    later_posts-keeps key es (post out e j).1 (post-keeps key out e j h)

-- What a call of `Post` that is not in a transaction may leave: where the INSERT of the entry passes and
-- the one of its first line fails, the entry stands without lines, and no later call with its key, such
-- as the one of a backfill, adds them, whatever other posts come in between.
pub gap_stays :
    (out out' : Outage) (e e' : Entry) (es : List (Bool × Outage × Entry)) (j : Journal)
    → check_entry e ≡ none
    → has_key e.header.idempotency_key j.entries ≡ false
    → out.entry_fails ≡ false
    → out.line_fails 0 ≡ true
    → e'.header.idempotency_key ≡ e.header.idempotency_key
    → let j' = (post out e j).1 in
      let j'' = later_posts es j' in
      (is_ok (post out e j).0 ≡ false)
      × (j'.lines ≡ j.lines)
      × (has_key e.header.idempotency_key j'.entries ≡ true)
      × ((post out' e' j'').1 ≡ j'')
gap_stays out out' e e' es j fine new up down same =
    let (failed, lines, there) = half out e j fine new up down in
    let j' = (post out e j).1 in
    let still = later_posts-keeps e.header.idempotency_key es j' there in
    (failed, lines, there, skips out' e' (later_posts es j') (rw same still))
