-- ===== src/Base/Serials.antt =====
-- Tables whose key is a serial number: what a row that was found by something else says of its number.
use licensing_master.Base.{
  ℕ, ◌≡◌, ap, ◌==◌, nat_eq, nat_beq_iff, Bool, true, false, some, List, [], ◌∷◌, arith, Bool-cases,
  inl, inr,
}
use licensing_master.Base.Rows.{first, All, All-first, All-map}
use licensing_master.Base.Keys.{Unique}

-- a row that is found is the only one with its key
pub Unique-only :
    {A : Type 0} (key : A → ℕ) (p : A → Bool) (xs : List A) {x : A}
    → Unique key xs
    → first p xs ≡ some x
    → All (λ y. (key y == key x) ≡ true → y ≡ x) xs
Unique-only key p [] u found = tt
Unique-only key p (y ∷ ys) {x} u found = elim (Bool-cases (p y)) [
  | inl on ↦
      let e : y ≡ x = ground arith in
      (λ _. e, All-map _ _ ys (λ z apart same. absurd (ground (arith, ap key e))) u.0)
  | inr off ↦
      let later : first p ys ≡ some x = ground arith in
      let apart : (key x == key y) ≡ false = All-first _ p ys u.0 later in
      (λ same. absurd (ground (arith, nat_beq_iff (key y) (key x))), Unique-only key p ys u.1 later)
]

-- the first row that has the key of a row that is found is that row
pub first-key :
    {A : Type 0} (key : A → ℕ) (p : A → Bool) (xs : List A) {x : A}
    → Unique key xs
    → first p xs ≡ some x
    → first (λ y. key y == key x) xs ≡ some x
first-key key p [] u found = found
first-key key p (y ∷ ys) {x} u found = elim (Bool-cases (p y)) [
  | inl on ↦ let e : y ≡ x = ground arith in rw e (ground arith)
  | inr off ↦
      let later : first p ys ≡ some x = ground arith in
      let apart : (key x == key y) ≡ false = All-first _ p ys u.0 later in
      let apart' : (key y == key x) ≡ false = ground arith in
      rw apart' (first-key key p ys u.1 later)
]
