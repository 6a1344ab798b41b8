-- ===== src/Purchases/Rows.antt =====
-- The row of a purchase after an UPDATE (api-server/internal/packages/purchase.go).
use rides_api.Base.{
  ℕ, ◌≡◌, refl, Bool, true, false, some, List, [], ◌∷◌, if◌then◌else◌, arith, ap, ◌∙◌,
}
use rides_api.Purchases.Shop.{Purchase, find_where, write_at, write_row}

module _ (t : Purchase → Bool) (id : ℕ) (f : Purchase → Purchase) where
  write_row-test : (x : Purchase) → t (f x) ≡ t x → t (write_row id f x) ≡ t x
  write_row-test x keeps = ground arith

  find-here :
      (x : Purchase) (xs : List Purchase) (p : Purchase)
      → t (write_row id f x) ≡ t x
      → t x ≡ true
      → find_where t (x ∷ xs) ≡ some p
      → find_where t (write_at id f (x ∷ xs)) ≡ some (write_row id f p)
  find-here x xs p keeps here h =
      let own : x ≡ p = ground arith in
      let found : find_where t (write_at id f (x ∷ xs)) ≡ some (write_row id f x) = ground arith in
      found ∙ ap (λ y. some (write_row id f y)) own

  find-later :
      (x : Purchase) (xs : List Purchase)
      → t (write_row id f x) ≡ t x
      → t x ≡ false
      → find_where t (write_at id f (x ∷ xs)) ≡ find_where t (write_at id f xs)
  find-later x xs keeps there = ground arith

  -- An UPDATE by the id that does not touch what is searched for is found.
  pub find-write :
      ((p : Purchase) → t (f p) ≡ t p)
      → (ps : List Purchase) (p : Purchase) → find_where t ps ≡ some p
      → find_where t (write_at id f ps) ≡ some (write_row id f p)
  find-write keeps [] p h = ground arith
  find-write keeps (x ∷ xs) p h =
      let same = write_row-test x (keeps x) in
      elim (t x)
          as (λ b.
            t x ≡ b
            → (if b then some x else find_where t xs) ≡ some p
            → find_where t (write_at id f (x ∷ xs)) ≡ some (write_row id f p)) [
              | true ↦ λ here e. find-here x xs p same here h
              | false ↦ λ there e. find-later x xs same there ∙ find-write keeps xs p e
            ]
        refl h
