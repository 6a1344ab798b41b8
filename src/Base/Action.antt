-- ===== src/Base/Action.antt =====
-- A call that may fail and that changes a state. What was written before a failure stays written;
-- a database transaction is the exception, and is modelled by `transaction`.
use mathlib.Core.Bool.{Bool, true, false, false≢true}
use mathlib.Core.Path.{◌≡◌, refl}
use rides_api.Base.Errors.{AppError}

pub data Result (A : Type 0) : Type 0 where
  ok : A → Result A
  err : AppError → Result A

abbrev pub is_ok : {A : Type 0} → Result A → Bool
is_ok (ok a) = true
is_ok (err e) = false

abbrev pub Action : Type 0 → Type 0 → Type 0
Action S A = S → Result A × S

-- The rest of a call, from the result of its first part.
abbrev pub resume : {S A B : Type 0} → (A → Action S B) → Result A → S → Result B × S
resume f (ok a) s = f a s
resume f (err e) s = (err e, s)

-- Commit, or roll back to the first state.
abbrev pub settle : {S A : Type 0} → S → Result A → S → Result A × S
settle s (ok a) s' = (ok a, s')
settle s (err e) s' = (err e, s)

module _ {S : Type 0} where
  infixl 5 ◌>>=◌ ◌>>◌
  abbrev pub ◌>>=◌ : {A B : Type 0} → Action S A → (A → Action S B) → Action S B
  ◌>>=◌ m f s = let (r, s') = m s in resume f r s'

  abbrev pub ◌>>◌ : {A B : Type 0} → Action S A → Action S B → Action S B
  m >> k = m >>= λ _. k

  abbrev pub pure : {A : Type 0} → A → Action S A
  pure a s = (ok a, s)

  abbrev pub raise : {A : Type 0} → AppError → Action S A
  raise e s = (err e, s)

  abbrev pub gets : {A : Type 0} → (S → A) → Action S A
  gets f s = (ok (f s), s)

  abbrev pub modify : (S → S) → Action S (Unit {0})
  modify f s = (ok tt, f s)

  -- `if cond { return e }`
  abbrev pub raise_if : Bool → AppError → Action S (Unit {0})
  raise_if true e s = (err e, s)
  raise_if false e s = (ok tt, s)

  -- `if cond { return a }`, before the rest
  abbrev pub return_if : {A : Type 0} → Bool → A → Action S A → Action S A
  return_if true a rest s = (ok a, s)
  return_if false a rest s = rest s

  -- `_ = call()`: the error is dropped, and what was written stays.
  abbrev pub ignore : {A : Type 0} → Action S A → Action S (Unit {0})
  ignore m s = (ok tt, (m s).1)

  -- `Begin … Commit` with a deferred `Rollback`: an error leaves the state as it was.
  abbrev pub transaction : {A : Type 0} → Action S A → Action S A
  transaction m s = let (r, s') = m s in settle s r s'

-- A call after which a property of the state holds again, whether or not the call fails.
abbrev pub Keeps {ℓ} : {S A : Type 0} → (S → Type ℓ) → Action S A → Type ℓ
Keeps {S} P m = (s : S) → P s → P (m s).1

module _ {ℓ} {S : Type 0} (P : S → Type ℓ) where
  Keeps-resume :
      {A B : Type 0} (f : A → Action S B)
      → ((a : A) → Keeps P (f a))
      → (r : Result A) (s : S) → P s
      → P (resume f r s).1
  Keeps-resume f l (ok a) s h = l a s h
  Keeps-resume f l (err e) s h = h

  pub Keeps-bind :
      {A B : Type 0} (m : Action S A) (f : A → Action S B)
      → Keeps P m
      → ((a : A) → Keeps P (f a))
      → Keeps P (m >>= f)
  Keeps-bind m f k l s h = Keeps-resume f l (m s).0 (m s).1 (k s h)

  Keeps-settle :
      {A : Type 0} (s s' : S) (r : Result A) → P s → (is_ok r ≡ true → P s') → P (settle s r s').1
  Keeps-settle s s' (ok a) h g = g refl
  Keeps-settle s s' (err e) h g = h

  -- A transaction keeps what its statements keep when all of them succeed.
  pub Keeps-transaction :
      {A : Type 0} (m : Action S A)
      → ((s : S) → P s → is_ok (m s).0 ≡ true → P (m s).1)
      → Keeps P (transaction m)
  Keeps-transaction m k s h = Keeps-settle s (m s).1 (m s).0 h (k s h)

  pub Keeps-raise_if : (b : Bool) (e : AppError) → Keeps P (raise_if b e)
  Keeps-raise_if true e s h = h
  Keeps-raise_if false e s h = h

  pub Keeps-return_if :
      {A : Type 0} (b : Bool) (a : A) (m : Action S A) → Keeps P m → Keeps P (return_if b a m)
  Keeps-return_if true a m k s h = h
  Keeps-return_if false a m k s h = k s h

-- A call in two parts succeeds only if the first part does, and then goes on from its state.
module _ {S B : Type 0} where
  resume-ok :
      (k : Action S B) (r : Result (Unit {0})) (s : S)
      → is_ok (resume (λ _. k) r s).0 ≡ true
      → (is_ok r ≡ true) × (resume (λ _. k) r s ≡ k s)
  resume-ok k (ok tt) s h = (refl, refl)
  resume-ok k (err e) s h = absurd (false≢true h)

  pub then-ok :
      (m : Action S (Unit {0})) (k : Action S B) (s : S)
      → is_ok ((m >> k) s).0 ≡ true
      → (is_ok (m s).0 ≡ true) × ((m >> k) s ≡ k (m s).1)
  then-ok m k s h = resume-ok k (m s).0 (m s).1 h

pub raise_if-state : {S : Type 0} (b : Bool) (e : AppError) (s : S) → (raise_if b e s).1 ≡ s
raise_if-state true e s = refl
raise_if-state false e s = refl

-- A call after which, where it succeeds, a property of the state holds.
abbrev pub Ends {ℓ} : {S A : Type 0} → (S → Type ℓ) → Action S A → Type ℓ
Ends {S} P m = (s : S) → is_ok (m s).0 ≡ true → P (m s).1

module _ {ℓ} {S A B : Type 0} (P : S → Type ℓ) (f : A → Action S B) where
  Ends-resume :
      ((a : A) → Ends P (f a))
      → (r : Result A) (s : S) → is_ok (resume f r s).0 ≡ true
      → P (resume f r s).1
  Ends-resume l (ok a) s h = l a s h
  Ends-resume l (err e) s h = absurd (false≢true h)

  -- The last part of a call decides.
  pub Ends-bind : (m : Action S A) → ((a : A) → Ends P (f a)) → Ends P (m >>= f)
  Ends-bind m l s h = Ends-resume l (m s).0 (m s).1 h
