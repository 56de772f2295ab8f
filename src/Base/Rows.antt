-- ===== src/Base/Rows.antt =====
-- Tables as lists of rows: what `SELECT`, `UPDATE`, `DELETE` and `count(*)` do with a condition.
use licensing_master.Base.Tests.{ltb, if◌then◌else◌, Bool-cases}
use Prim.Native.Nat.{ℕ, zero, suc, ◌+◌}
use mathlib.Core.Path.{◌≡◌, refl}
use mathlib.Core.Bool.{Bool, true, false, ◌&&◌}
use mathlib.Core.Option.{Option, none, some}
use mathlib.Core.Logic.{◌≢◌, inl, inr}
use mathlib.Core.List.{List, [], ◌∷◌, ◌++◌}
use native.Mathlib.Omega.{arith}

module _ {ℓ} {A : Type ℓ} where
  -- `.first()` of a `SELECT … WHERE p`
  abbrev pub first : (A → Bool) → List A → Option A
  first p [] = none
  first p (x ∷ xs) = if p x then some x else first p xs

  -- the rows of a `SELECT … WHERE p`
  abbrev pub select : (A → Bool) → List A → List A
  select p [] = []
  select p (x ∷ xs) = let rest = select p xs in if p x then x ∷ rest else rest

  -- `count(*)` over `WHERE p`; the rowcount of an `UPDATE`
  abbrev pub count : (A → Bool) → List A → ℕ
  count p [] = 0
  count p (x ∷ xs) = (if p x then 1 else 0) + count p xs

  -- `UPDATE … SET f WHERE p`
  abbrev pub update : (A → Bool) → (A → A) → List A → List A
  update p f [] = []
  update p f (x ∷ xs) = (if p x then f x else x) ∷ update p f xs

  -- `DELETE … WHERE p`
  abbrev pub delete : (A → Bool) → List A → List A
  delete p [] = []
  delete p (x ∷ xs) = let rest = delete p xs in if p x then rest else x ∷ rest

  insert_desc : (A → ℕ) → A → List A → List A
  insert_desc key a [] = a ∷ []
  insert_desc key a (x ∷ xs) =
      let rest = insert_desc key a xs in if ltb (key x) (key a) then a ∷ x ∷ xs else x ∷ rest

  -- `ORDER BY key DESC`
  unfoldable pub order_desc : (A → ℕ) → List A → List A
  unfolding insert_desc
  order_desc key [] = []
  order_desc key (x ∷ xs) = insert_desc key x (order_desc key xs)

  insert_asc : (A → ℕ) → A → List A → List A
  insert_asc key a [] = a ∷ []
  insert_asc key a (x ∷ xs) =
      let rest = insert_asc key a xs in if ltb (key x) (key a) then x ∷ rest else a ∷ x ∷ xs

  -- `ORDER BY key`
  unfoldable pub order_asc : (A → ℕ) → List A → List A
  unfolding insert_asc
  order_asc key [] = []
  order_asc key (x ∷ xs) = insert_asc key x (order_asc key xs)

  -- `LIMIT n`
  abbrev pub take : ℕ → List A → List A
  take zero xs = []
  take (suc n) [] = []
  take (suc n) (x ∷ xs) = x ∷ take n xs

  abbrev pub All {κ} : (A → Type κ) → List A → Type κ
  All P [] = Unit
  All P (x ∷ xs) = P x × All P xs

abbrev pub ind : Bool → ℕ
ind b = if b then 1 else 0

module _ {ℓ} {A : Type ℓ} where
  pub first-sat : (p : A → Bool) (xs : List A) {x : A} → first p xs ≡ some x → p x ≡ true
  first-sat p [] h = cc
  first-sat p (y ∷ ys) h = elim (Bool-cases (p y)) [
    | inl t ↦ ground (arith)
    | inr f ↦ first-sat p ys (ground arith)
  ]

  pub count-append : (p : A → Bool) (xs ys : List A) → count p (xs ++ ys) ≡ count p xs + count p ys
  count-append p [] ys = omega arith
  count-append p (x ∷ xs) ys = ground (arith, count-append p xs ys)

  pub All-append {κ} : (P : A → Type κ) (xs ys : List A) → All P xs → All P ys → All P (xs ++ ys)
  All-append P [] ys hx hy = hy
  All-append P (x ∷ xs) ys hx hy = (hx.0, All-append P xs ys hx.1 hy)

  pub All-first {κ} :
      (P : A → Type κ) (p : A → Bool) (xs : List A) {x : A} → All P xs → first p xs ≡ some x → P x
  All-first P p [] h e = absurd (cc)
  All-first P p (y ∷ ys) {x} h e = elim (Bool-cases (p y)) [
    | inl t ↦ let e' : y ≡ x = ground arith in rw (← e') h.0
    | inr f ↦ All-first P p ys h.1 (ground arith)
  ]

  -- A predicate that each row's change keeps.
  pub All-update {κ λ'} :
      (P : A → Type κ) (Q : A → Type λ') (p : A → Bool) (f : A → A) (xs : List A)
      → ((x : A) → P x → p x ≡ true → Q (f x))
      → ((x : A) → P x → p x ≡ false → Q x)
      → All P xs
      → All Q (update p f xs)
  All-update P Q p f [] on off h = tt
  All-update P Q p f (x ∷ xs) on off h = elim (Bool-cases (p x)) [
    | inl t ↦ (rw t (on x h.0 t), All-update P Q p f xs on off h.1)
    | inr n ↦ (rw n (off x h.0 n), All-update P Q p f xs on off h.1)
  ]

  pub All-map {κ λ'} :
      (P : A → Type κ) (Q : A → Type λ') (xs : List A) → ((x : A) → P x → Q x) → All P xs → All Q xs
  All-map P Q [] f h = tt
  All-map P Q (x ∷ xs) f h = (f x h.0, All-map P Q xs f h.1)

  pub All-delete {κ} :
      (P : A → Type κ) (p : A → Bool) (xs : List A) → All P xs → All P (delete p xs)
  All-delete P p [] h = tt
  All-delete P p (x ∷ xs) h = elim (Bool-cases (p x)) [
    | inl t ↦ rw t (All-delete P p xs h.1)
    | inr n ↦ rw n (h.0, All-delete P p xs h.1)
  ]

  pub All-zip {κ λ'} :
      (P : A → Type κ) (Q : A → Type λ') (xs : List A)
      → All P xs
      → All Q xs
      → All (λ x. P x × Q x) xs
  All-zip P Q [] h k = tt
  All-zip P Q (x ∷ xs) h k = ((h.0, k.0), All-zip P Q xs h.1 k.1)

  pub first_of_count :
      (p : A → Bool) (xs : List A) → count p xs ≢ 0 → (x : A) × (first p xs ≡ some x)
  first_of_count p [] h = absurd (h refl)
  first_of_count p (x ∷ xs) h = elim (Bool-cases (p x)) [
    | inl t ↦ (x, rw t)
    | inr n ↦ let (y, found) = first_of_count p xs (ground arith) in (y, rw n found)
  ]

  -- A change that `q` does not see leaves its count.
  pub count-update_same :
      (q p : A → Bool) (f : A → A) (xs : List A)
      → ((x : A) → p x ≡ true → q (f x) ≡ q x)
      → count q (update p f xs) ≡ count q xs
  count-update_same q p f [] h = refl
  count-update_same q p f (x ∷ xs) h = elim (Bool-cases (p x)) [
    | inl t ↦ rw (t, h x t, count-update_same q p f xs h)
    | inr n ↦ rw (n, count-update_same q p f xs h)
  ]

  -- A change after which `p` does not hold leaves no row of `p` to count.
  pub count-update_off :
      (p : A → Bool) (f : A → A) (xs : List A)
      → ((x : A) → p x ≡ true → p (f x) ≡ false)
      → count p (update p f xs) ≡ 0
  count-update_off p f [] off = refl
  count-update_off p f (x ∷ xs) off = elim (Bool-cases (p x)) [
    | inl on ↦ ground (arith, off x on, count-update_off p f xs off)
    | inr out ↦ ground (arith, count-update_off p f xs off)
  ]

  pub first-append :
      (p : A → Bool) (xs : List A) (y : A)
      → first p xs ≡ none
      → p y ≡ true
      → first p (xs ++ y ∷ []) ≡ some y
  first-append p [] y h on = rw on refl
  first-append p (x ∷ xs) y h on = elim (Bool-cases (p x)) [
    | inl t ↦ absurd (ground arith)
    | inr n ↦ rw n (first-append p xs y (ground arith) on)
  ]

  pub update-none :
      (p : A → Bool) (f : A → A) (xs : List A) → first p xs ≡ none → update p f xs ≡ xs
  update-none p f [] h = refl
  update-none p f (x ∷ xs) h = elim (Bool-cases (p x)) [
    | inl t ↦ absurd (ground arith)
    | inr n ↦ rw (n, update-none p f xs (ground arith))
  ]

  -- The first row of `p` is the first one after a change that `p` does not see.
  pub first-update :
      (p q : A → Bool) (f : A → A) (xs : List A) {x : A}
      → ((y : A) → p (f y) ≡ p y)
      → first p xs ≡ some x
      → first p (update q f xs) ≡ some (if q x then f x else x)
  first-update p q f [] same h = absurd (cc)
  first-update p q f (y ∷ ys) {x} same h = elim (Bool-cases (p y)) [
    | inl on ↦ ground (arith, same y)
    | inr off ↦ ground (arith, same y, first-update p q f ys {x = x} same (ground arith))
  ]

  -- A change after which `p` does not hold leaves no row of `p`.
  pub first-update_off :
      (p : A → Bool) (f : A → A) (xs : List A)
      → ((x : A) → p x ≡ true → p (f x) ≡ false)
      → first p (update p f xs) ≡ none
  first-update_off p f [] off = refl
  first-update_off p f (x ∷ xs) off = elim (Bool-cases (p x)) [
    | inl on ↦ rw (on, off x on) (first-update_off p f xs off)
    | inr out ↦ rw (out, out) (first-update_off p f xs off)
  ]

  pub count-delete : (p : A → Bool) (xs : List A) → count p (delete p xs) ≡ 0
  count-delete p [] = refl
  count-delete p (x ∷ xs) = elim (Bool-cases (p x)) [
    | inl on ↦ ground (arith, count-delete p xs)
    | inr out ↦ ground (arith, count-delete p xs)
  ]

  -- The rows that a deletion does not mean stay, in their order.
  pub select-delete :
      (q p : A → Bool) (xs : List A)
      → ((x : A) → q x ≡ true → p x ≡ false)
      → select q (delete p xs) ≡ select q xs
  select-delete q p [] off = refl
  select-delete q p (x ∷ xs) off = elim (Bool-cases (p x)) [
    | inl on ↦ elim (Bool-cases (q x)) [
      | inl both ↦ absurd (ground (arith, off x both))
      | inr other ↦ rw (on, other) (select-delete q p xs off)
    ]
    | inr out ↦ rw (out, select-delete q p xs off) refl
  ]

  pub update-unmatched :
      (p : A → Bool) (f : A → A) (xs : List A) → count p xs ≡ 0 → update p f xs ≡ xs
  update-unmatched p f [] h = refl
  update-unmatched p f (x ∷ xs) h = elim (Bool-cases (p x)) [
    | inl on ↦ absurd (ground arith)
    | inr out ↦ rw (out, update-unmatched p f xs (ground arith)) refl
  ]

  -- The first row of `q` fails `p` where no row meets both.
  pub first-unmet :
      (q p : A → Bool) (xs : List A) {x : A}
      → first (λ y. q y && p y) xs ≡ none
      → first q xs ≡ some x
      → p x ≡ false
  first-unmet q p [] h e = absurd (cc)
  first-unmet q p (y ∷ ys) {x} h e = elim (Bool-cases (q y)) [
    | inl on ↦ ground arith
    | inr off ↦ first-unmet q p ys {x = x} (ground arith) (ground arith)
  ]

  pub first-uncounted : (p : A → Bool) (xs : List A) → count p xs ≡ 0 → first p xs ≡ none
  first-uncounted p [] h = refl
  first-uncounted p (x ∷ xs) h = ground (arith, first-uncounted p xs)

  pub count-delete_zero :
      (q p : A → Bool) (xs : List A) → count q xs ≡ 0 → count q (delete p xs) ≡ 0
  count-delete_zero q p [] h = refl
  count-delete_zero q p (x ∷ xs) h = ground (arith, count-delete_zero q p xs)
