-- ===== src/Purchases/Settled.antt =====
-- What `confirm` leaves when it succeeds (api-server/internal/packages/purchase.go).
use rides_api.Base.{
  ℕ, ◌+◌, ◌*◌, ◌≡◌, refl, Bool, true, Option, some, arith, ap, ◌∙◌, sym, ◌==◌, ◌||◌, not, ◌&&◌,
  if◌then◌else◌,
}
use rides_api.Base.Int.{pos, leb_ℤ}
use rides_api.Base.Action.{
  is_ok, then-ok, gets, ◌>>=◌, ◌>>◌, raise_if, raise_if-state, Action, pure,
}
use rides_api.Packages.{coalesce, grant_purchase}
use rides_api.Journal.Posting.{post, Journal}
use rides_api.Purchases.Shop.{
  Purchase, Shop, Env, TxnId, paid, find_by_ref, find_by_id, find_where, write_at, write_row,
  is_pending, on_credits, Call, change, mark_paid_q,
}
use rides_api.Purchases.Confirm.{
  mark_paid, mark_credits_granted, post_sale, settle_paid, settle, confirm, valid_days, sale_entry,
  is_taken,
}
use rides_api.Purchases.Rows.{find-write}
use rides_api.Base.Errors.{unavailable}

-- The row of a purchase whose payment came, before and after its credits are granted.
abbrev pub paid_row : Option TxnId → ℕ → Purchase → Purchase
paid_row txn now p = record p {
  status = paid;
  provider_txn_id = coalesce txn p.provider_txn_id;
  paid_at = some now;
}

abbrev pub granted_row : Purchase → Purchase
granted_row p = record p { credits_granted = true }

module _ (env : Env) where
  pub post_sale-rows : (id : ℕ) (s : Shop) → (post_sale env id s).1.purchases ≡ s.purchases
  unfolding post_sale
  post_sale-rows id s = ground arith

  post_sale-credits : (id : ℕ) (s : Shop) → (post_sale env id s).1.credits ≡ s.credits
  unfolding post_sale
  post_sale-credits id s = ground arith

  -- The state in which the sale is posted.
  abbrev pub before_sale : Purchase → Option TxnId → Shop → Shop
  before_sale p txn s = record s {
    purchases = write_at p.id granted_row (write_at p.id (paid_row txn s.credits.now) s.purchases);
    credits =
        (grant_purchase env.credits_out true p.driver_id p.vehicle_id p.vehicle_type_id p.id
          p.rides_granted p.bonus_rides_granted (s.credits.now + valid_days p.validity_days * 86400)
          s.credits).1;
  }

  abbrev granted_at : Purchase → ℕ → Call (Unit {0})
  granted_at p now = on_credits (
      grant_purchase env.credits_out true p.driver_id p.vehicle_id p.vehicle_type_id p.id
        p.rides_granted p.bonus_rides_granted (now + valid_days p.validity_days * 86400))

  -- What `settle_paid` does after the row is marked.
  abbrev granting : Purchase → Option TxnId → Call (Unit {0})
  granting p txn = do
    now ← gets (λ s. s.credits.now)
    granted_at p now
    mark_credits_granted env p.id
    post_sale env p.id

  mark_paid-ok :
      (id : ℕ) (txn : Option TxnId) (s : Shop)
      → is_ok (mark_paid env id txn s).0 ≡ true
      → (mark_paid env id txn s).1
        ≡ record s { purchases = write_at id (paid_row txn s.credits.now) s.purchases }
  unfolding mark_paid
  mark_paid-ok id txn s h =
      let b = env.fails mark_paid_q || is_taken txn id s.purchases in
      let write = change id (paid_row txn s.credits.now) in
      ap (λ y. y.1) (then-ok (raise_if b unavailable) write s h).1
      ∙ ap (λ y. (write y).1) (raise_if-state b unavailable s)

  mark_granted-ok :
      (id : ℕ) (s : Shop)
      → is_ok (mark_credits_granted env id s).0 ≡ true
      → (mark_credits_granted env id s).1
        ≡ record s { purchases = write_at id granted_row s.purchases }
  unfolding mark_credits_granted
  mark_granted-ok id s h = ground arith

  pub settle_paid-steps :
      (p : Purchase) (txn : Option TxnId) (s : Shop)
      → is_ok (settle_paid env p txn s).0 ≡ true
      → (is_ok
            (grant_purchase env.credits_out true p.driver_id p.vehicle_id p.vehicle_type_id p.id
              p.rides_granted p.bonus_rides_granted
              (s.credits.now + valid_days p.validity_days * 86400)
              s.credits).0
          ≡ true)
        × (settle_paid env p txn s ≡ post_sale env p.id (before_sale p txn s))
  unfolding settle_paid
  settle_paid-steps p txn s h =
      let (fine1, eq1) = then-ok (mark_paid env p.id txn) _ s h in
      let at1 = mark_paid-ok p.id txn s fine1 in
      let go1 = eq1 ∙ ap (granting p txn) at1 in
      let s1 = record s { purchases = write_at p.id (paid_row txn s.credits.now) s.purchases } in
      let (fine2, eq2) =
        then-ok (granted_at p s1.credits.now) _ s1 (sym (ap (λ y. is_ok y.0) go1) ∙ h) in
      let s2 = (granted_at p s1.credits.now s1).1 in
      let (fine3, eq3) =
        then-ok (mark_credits_granted env p.id) (post_sale env p.id) s2
          (sym (ap (λ y. is_ok y.0) (go1 ∙ eq2)) ∙ h) in
      (fine2, go1 ∙ eq2 ∙ eq3 ∙ ap (post_sale env p.id) (mark_granted-ok p.id s2 fine3))

  -- The statements of the transaction, from the row that it locked.
  settle-steps :
      (ref : ℕ) (txn : Option TxnId) (p : Purchase) (s : Shop)
      → is_pending p.status ≡ true
      → is_ok (settle env ref txn true p s).0 ≡ true
      → (is_ok (settle_paid env p txn s).0 ≡ true)
        × ((settle env ref txn true p s).1 ≡ (settle_paid env p txn s).1)
  unfolding settle
  settle-steps ref txn p s open_yet h = ground arith

  pub confirm-steps :
      (ref : ℕ) (txn : Option TxnId) (b : Bool) (p : Purchase) (s : Shop)
      → find_by_ref ref s.purchases ≡ some p
      → is_ok (confirm env ref txn b s).0 ≡ true
      → (is_ok (settle env ref txn b p s).0 ≡ true)
        × ((confirm env ref txn b s).1 ≡ (settle env ref txn b p s).1)
  unfolding confirm
  confirm-steps ref txn b p s found h = ground arith

  pub paid_steps :
      (ref : ℕ) (txn : Option TxnId) (p : Purchase) (s : Shop)
      → find_by_ref ref s.purchases ≡ some p
      → is_pending p.status ≡ true
      → is_ok (confirm env ref txn true s).0 ≡ true
      → (is_ok (settle_paid env p txn s).0 ≡ true)
        × ((confirm env ref txn true s).1 ≡ (settle_paid env p txn s).1)
  paid_steps ref txn p s found open_yet h =
      let (fine, same) = confirm-steps ref txn true p s found h in
      let (fine', same') = settle-steps ref txn p s open_yet fine in (fine', same ∙ same')

  pub own_row : (p : Purchase) (f : Purchase → Purchase) → write_row p.id f p ≡ f p
  own_row p f = ground arith

  pub rows_after :
      (t : Purchase → Bool) (p : Purchase) (txn : Option TxnId) (s : Shop)
      → ((q : Purchase) → t (paid_row txn s.credits.now q) ≡ t q)
      → ((q : Purchase) → t (granted_row q) ≡ t q)
      → find_where t s.purchases ≡ some p
      → find_where t (before_sale p txn s).purchases
        ≡ some (granted_row (paid_row txn s.credits.now p))
  rows_after t p txn s keeps keeps' found =
      let row = paid_row txn s.credits.now p in
      find-write t p.id granted_row keeps' (write_at p.id (paid_row txn s.credits.now) s.purchases)
        row
        (find-write t p.id (paid_row txn s.credits.now) keeps s.purchases p found
          ∙ ap some (own_row p (paid_row txn s.credits.now)))
      ∙ ap some (own_row row granted_row)

  -- The sale that belongs in the journal: none where no journal is wired or the price is not positive.
  abbrev pub due_sale : ℕ → ℕ → Purchase → Action Journal (Unit {0})
  due_sale id now row =
      if env.has_journal && not (leb_ℤ row.price_paid_rwf (pos 0))
      then post env.journal_out (sale_entry env id now row)
      else pure tt

  sale_posts :
      (id : ℕ) (row : Purchase) (s : Shop)
      → find_by_id id s.purchases ≡ some row
      → is_ok (post_sale env id s).0 ≡ true
      → (is_ok (due_sale id s.credits.now row s.journal).0 ≡ true)
        × ((post_sale env id s).1.journal ≡ (due_sale id s.credits.now row s.journal).1)
  unfolding post_sale
  sale_posts id row s found h = ground arith

  -- A call of `confirm` for a payment that came, which finds the purchase pending and succeeds, leaves
  -- its row PAID with the credits marked as granted, and the grant has run on the entitlement ledger
  -- and succeeded. The journal is as after a successful post of the sale, with the price as debit and
  -- credit, where a journal is wired and the price is positive, and as before otherwise.
  pub confirm_settles :
      (ref : ℕ) (txn : Option TxnId) (p : Purchase) (s : Shop)
      → find_by_ref ref s.purchases ≡ some p
      → find_by_id p.id s.purchases ≡ some p
      → is_pending p.status ≡ true
      → is_ok (confirm env ref txn true s).0 ≡ true
      → let s' = (confirm env ref txn true s).1 in
        let row = granted_row (paid_row txn s.credits.now p) in
        let grant =
          grant_purchase env.credits_out true p.driver_id p.vehicle_id p.vehicle_type_id p.id
            p.rides_granted p.bonus_rides_granted
            (s.credits.now + valid_days p.validity_days * 86400)
            s.credits in
        let sale = due_sale p.id s.credits.now row s.journal in
        (find_by_ref ref s'.purchases ≡ some row)
        × (is_ok grant.0 ≡ true)
        × (s'.credits ≡ grant.1)
        × (is_ok sale.0 ≡ true)
        × (s'.journal ≡ sale.1)
  confirm_settles ref txn p s found by_id open_yet h =
      let row = granted_row (paid_row txn s.credits.now p) in
      let x = before_sale p txn s in
      let (fine, same) = paid_steps ref txn p s found open_yet h in
      let (granted, steps) = settle_paid-steps p txn s fine in
      let row_of_id = rows_after (λ q. q.id == p.id) p txn s (λ q. refl) (λ q. refl) by_id in
      let (posted, journal) =
        sale_posts p.id row x row_of_id (sym (ap (λ y. is_ok y.0) steps) ∙ fine) in
      rw (same ∙ ap (λ y. y.1) steps) (
        ap (find_by_ref ref) (post_sale-rows p.id x)
            ∙ rows_after (λ q. q.payment_ref == ref) p txn s (λ q. refl) (λ q. refl) found,
        granted,
        post_sale-credits p.id x,
        posted,
        journal,
      )
