-- ===== src/Base/Deleted.antt =====
-- What holds of the rows that a deletion leaves, and of pairs of rows of two tables.
use licensing_master.Base.{◌≡◌, refl, Bool, true, false, List, [], ◌∷◌, arith, Bool-cases, inl, inr}
use licensing_master.Base.Rows.{count, delete, All}

module _ {A : Type 0} where
  pub All-kept {κ} :
      (P : A → Type κ) (p : A → Bool) (xs : List A)
      → All P xs
      → All (λ x. P x × (p x ≡ false)) (delete p xs)
  All-kept P p [] h = tt
  All-kept P p (x ∷ xs) h = elim (Bool-cases (p x)) [
    | inl on ↦ rw on (All-kept P p xs h.1)
    | inr off ↦ rw off ((h.0, off), All-kept P p xs h.1)
  ]

  pub count-delete_off :
      (q p : A → Bool) (xs : List A)
      → All (λ x. p x ≡ true → q x ≡ false) xs
      → count q (delete p xs) ≡ count q xs
  count-delete_off q p [] h = refl
  count-delete_off q p (x ∷ xs) h = ground (arith, h.0, count-delete_off q p xs h.1)

module _ {A B : Type 0} (R : A → B → Type 0) where
  All-cons :
      (xs : List A) (y : B) (ys : List B)
      → All (λ x. All (R x) (y ∷ ys)) xs
      → All (λ x. R x y) xs × All (λ x. All (R x) ys) xs
  All-cons [] y ys h = (tt, tt)
  All-cons (x ∷ xs) y ys h = let (a, b) = All-cons xs y ys h.1 in ((h.0.0, a), (h.0.1, b))

  pub All-swap :
      (xs : List A) (ys : List B) → All (λ x. All (R x) ys) xs → All (λ y. All (λ x. R x y) xs) ys
  All-swap xs [] h = tt
  All-swap xs (y ∷ ys) h = let (a, b) = All-cons xs y ys h in (a, All-swap xs ys b)
