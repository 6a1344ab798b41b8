-- ===== src/Purchases/Once.antt =====
-- A purchase is settled once (api-server/internal/packages/purchase.go).
use rides_api.Base.{
  ℕ, ◌≡◌, refl, Bool, true, false, Option, some, none, arith, ap, ◌∙◌, ◌==◌, String,
}
use rides_api.Base.Action.{is_ok}
use rides_api.Purchases.Shop.{
  Purchase, Shop, Env, TxnId, Statement, begin_q, lock_q, commit_q, mark_failed_q, ChargeStatus,
  failed, find_by_ref, write_at, is_pending,
}
use rides_api.Purchases.Confirm.{mark_failed, settle, confirm}
use rides_api.Purchases.Rows.{find-write}
use rides_api.Purchases.Settled.{
  confirm-steps, paid_steps, settle_paid-steps, post_sale-rows, before_sale, rows_after, own_row,
}
use rides_api.Purchases.Reconcile.{PendingMoMo, reconcile_one}

abbrev pub failed_row : Purchase → Purchase
failed_row p = record p { status = failed }

settled-skip :
    (env : Env) (ref : ℕ) (txn : Option TxnId) (b : Bool) (q : Purchase) (s : Shop)
    → find_by_ref ref s.purchases ≡ some q
    → is_pending q.status ≡ false
    → (confirm env ref txn b s).1 ≡ s
unfolding confirm settle
settled-skip env ref txn b q s found closed = ground arith

module _ (env : Env) (ref : ℕ) (txn : Option TxnId) (p : Purchase) (s : Shop)
    (found : find_by_ref ref s.purchases ≡ some p) where
  failed_steps :
      is_pending p.status ≡ true
      → is_ok (settle env ref txn false p s).0 ≡ true
      → (settle env ref txn false p s).1
        ≡ record s { purchases = write_at p.id failed_row s.purchases }
  unfolding settle mark_failed
  failed_steps open_yet h = ground arith

  paid_found :
      is_pending p.status ≡ true
      → is_ok (confirm env ref txn true s).0 ≡ true
      → (q : Purchase) × (find_by_ref ref (confirm env ref txn true s).1.purchases ≡ some q)
        × (is_pending q.status ≡ false)
  paid_found open_yet h =
      let (fine, same) = paid_steps env ref txn p s found open_yet h in
      let (granted, steps) = settle_paid-steps env p txn s fine in
      let x = before_sale env p txn s in
      (
        _,
        ap (λ y. find_by_ref ref y.purchases) (same ∙ ap (λ y. y.1) steps)
            ∙ ap (find_by_ref ref) (post_sale-rows env p.id x)
            ∙ rows_after env (λ q. q.payment_ref == ref) p txn s (λ q. refl) (λ q. refl) found,
        refl,
      )

  failed_found :
      is_pending p.status ≡ true
      → is_ok (confirm env ref txn false s).0 ≡ true
      → find_by_ref ref (confirm env ref txn false s).1.purchases ≡ some (failed_row p)
  failed_found open_yet h =
      let (fine, same) = confirm-steps env ref txn false p s found h in
      ap (λ y. find_by_ref ref y.purchases) (same ∙ failed_steps open_yet fine)
      ∙ find-write (λ q. q.payment_ref == ref) p.id failed_row (λ q. refl) s.purchases p found
      ∙ ap some (own_row env p failed_row)

  closed_after :
      (b : Bool)
      → is_pending p.status ≡ true
      → is_ok (confirm env ref txn b s).0 ≡ true
      → (q : Purchase) × (find_by_ref ref (confirm env ref txn b s).1.purchases ≡ some q)
        × (is_pending q.status ≡ false)
  closed_after true open_yet h = paid_found open_yet h
  closed_after false open_yet h = (failed_row p, failed_found open_yet h, refl)

  -- A charge is settled once: after a call of `confirm` that succeeds, another one for its reference
  -- changes nothing, whatever it says of the payment: credits are granted once and the sale is posted
  -- once.
  pub confirm_once :
      (env' : Env) (txn' : Option TxnId) (b b' : Bool)
      → is_ok (confirm env ref txn b s).0 ≡ true
      → let s' = (confirm env ref txn b s).1 in (confirm env' ref txn' b' s').1 ≡ s'
  confirm_once env' txn' b b' h =
      elim (is_pending p.status)
          as (λ x.
            is_pending p.status ≡ x
            → let s' = (confirm env ref txn b s).1 in (confirm env' ref txn' b' s').1 ≡ s') [
              | true ↦ λ open_yet.
                  let (q, there, closed) = closed_after b open_yet h in
                  settled-skip env' ref txn' b' q (confirm env ref txn b s).1 there closed
              | false ↦ λ closed.
                  rw (settled-skip env ref txn b p s found closed)
                    (settled-skip env' ref txn' b' p s found closed)
            ]
        refl

gives_up :
    (env : Env) (ask : String → ℕ → Option ChargeStatus) (m : PendingMoMo) (s : Shop)
    → m.expired ≡ true
    → (reconcile_one env ask m s).1 ≡ (confirm env m.payment_ref none false s).1
unfolding reconcile_one
gives_up env ask m s late = ground arith

fails_well :
    (env : Env) (ref : ℕ) (p : Purchase) (s : Shop)
    → find_by_ref ref s.purchases ≡ some p
    → is_pending p.status ≡ true
    → ((q : Statement) → env.fails q ≡ false)
    → is_ok (confirm env ref none false s).0 ≡ true
unfolding confirm settle mark_failed
fails_well env ref p s found open_yet up =
    ground (arith, up begin_q, up lock_q, up commit_q, up mark_failed_q)

-- A charge whose window has passed is failed without asking the gateway, where no statement fails: its
-- row is FAILED, also if the customer has paid, and a later call for the payment that came changes
-- nothing.
pub expired_is_lost :
    (env env' : Env) (ask : String → ℕ → Option ChargeStatus) (m : PendingMoMo) (p : Purchase)
    (txn : Option TxnId) (s : Shop)
    → m.expired ≡ true
    → find_by_ref m.payment_ref s.purchases ≡ some p
    → is_pending p.status ≡ true
    → ((q : Statement) → env.fails q ≡ false)
    → let s' = (reconcile_one env ask m s).1 in
      (find_by_ref m.payment_ref s'.purchases ≡ some (failed_row p))
      × ((confirm env' m.payment_ref txn true s').1 ≡ s')
expired_is_lost env env' ask m p txn s late found open_yet up =
    let fine = fails_well env m.payment_ref p s found open_yet up in
    let there = failed_found env m.payment_ref none p s found open_yet fine in
    rw (gives_up env ask m s late) (
      there,
      settled-skip env' m.payment_ref txn true (failed_row p)
          (confirm env m.payment_ref none false s).1 there refl,
    )
