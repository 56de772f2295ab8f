-- ===== src/Base/Keys.antt =====
-- Tables with a unique key column: a condition that implies the key touches one row at most.
use licensing_master.Base.Tests.{Eq, ◌==◌, ==_flip, Bool-cases}
use licensing_master.Base.Rows.{
  first, count, update, delete, All, ind, All-update, All-delete, All-append, All-map, All-first,
  first-sat,
}
use Prim.Native.Nat.{◌+◌}
use mathlib.Core.Path.{◌≡◌, refl}
use mathlib.Core.Bool.{Bool, true, false, ◌&&◌}
use mathlib.Core.Option.{none, some}
use mathlib.Core.Logic.{inl, inr}
use mathlib.Core.List.{List, [], ◌∷◌, ◌++◌}
use native.Mathlib.Omega.{arith}

module _ {ℓ κ} {A : Type ℓ} {K : Type κ} ⦃e : Eq K⦄ (key : A → K) where
  -- no row has the key
  abbrev pub Absent : K → List A → Type 0
  Absent k = All (λ y. (key y == k) ≡ false)

  abbrev pub Unique : List A → Type 0
  Unique [] = Unit
  Unique (x ∷ xs) = Absent (key x) xs × Unique xs

  -- a condition that only rows with the key `k` meet
  abbrev pub Within : (A → Bool) → K → Type ℓ
  Within p k = (x : A) → p x ≡ true → (key x == k) ≡ true

  pub update-Absent :
      (p : A → Bool) (f : A → A) (k : K) (xs : List A)
      → Within p k
      → Absent k xs
      → update p f xs ≡ xs
  update-Absent p f k [] w h = refl
  update-Absent p f k (x ∷ xs) w h = ground (arith, w x, update-Absent p f k xs w h.1)

  pub Absent-of_first : (k : K) (xs : List A) → first (λ y. key y == k) xs ≡ none → Absent k xs
  Absent-of_first k [] h = tt
  Absent-of_first k (x ∷ xs) h = elim (Bool-cases (key x == k)) [
    | inl t ↦ absurd (ground arith)
    | inr n ↦ (n, Absent-of_first k xs (ground arith))
  ]

  -- With a unique key the update of the row that is found moves any count by that row alone.
  pub count-update :
      (q p : A → Bool) (f : A → A) (k : K) (xs : List A) {r : A}
      → Within p k
      → Unique xs
      → first p xs ≡ some r
      → count q (update p f xs) + ind (q r) ≡ count q xs + ind (q (f r))
  count-update q p f k [] w u h = cc
  count-update q p f k (x ∷ xs) {r} w u h = elim (Bool-cases (p x)) [
    | inl t ↦
        let same : x ≡ r = ground arith in
        let k_eq : key x ≡ k = (e.decides (key x) k).0 (w x t) in
        let gone : update p f xs ≡ xs = update-Absent p f k xs w (rw k_eq at u.0) in
        rw (t, gone, same) (ground arith)
    | inr n ↦ rw n (let ih = count-update q p f k xs {r = r} w u.1 (ground arith) in ground arith)
  ]

  elsewhere :
      (p : A → Bool) (k j : K) (xs : List A) {r : A}
      → Within p k
      → Absent j xs
      → j ≡ k
      → first p xs ≡ some r
      → ⊥
  elsewhere p k j xs {r} w h same found =
      let off : (key r == j) ≡ false = All-first (λ y. (key y == j) ≡ false) p xs h found in
      let on : (key r == k) ≡ true = w r (first-sat p xs found) in
      let off' : (key r == k) ≡ false = rw same at off in cc

  -- The row that is found is the only one with its key.
  pub All-sat :
      (p : A → Bool) (k : K) (xs : List A) {r : A}
      → Within p k
      → Unique xs
      → first p xs ≡ some r
      → All (λ x. (key x == k) ≡ true → p x ≡ true) xs
  All-sat p k [] w u h = cc
  All-sat p k (x ∷ xs) {r} w u h = elim (Bool-cases (p x)) [
    | inl t ↦
        let k_eq : key x ≡ k = (e.decides (key x) k).0 (w x t) in
        (
          (λ _. t),
          All-map (λ y. (key y == k) ≡ false) (λ y. (key y == k) ≡ true → p y ≡ true) xs
              (λ y off on. absurd (cc)) (rw k_eq at u.0),
        )
    | inr n ↦
        let rest = All-sat p k xs {r = r} w u.1 (ground arith) in
        (
          (λ on.
              absurd (
                elsewhere p k (key x) xs {r = r} w u.0 ((e.decides (key x) k).0 on)
                  (ground arith))),
          rest,
        )
  ]

  pub Unique-update :
      (p : A → Bool) (f : A → A) (xs : List A)
      → ((x : A) → key (f x) ≡ key x)
      → Unique xs
      → Unique (update p f xs)
  Unique-update p f [] same u = tt
  Unique-update p f (x ∷ xs) same u = elim (Bool-cases (p x)) [
    | inl t ↦ rw (t, same x) (keep, Unique-update p f xs same u.1)
    | inr n ↦ rw n (keep, Unique-update p f xs same u.1)
  ]
    where
      keep : Absent (key x) (update p f xs)
      keep =
          All-update (λ y. (key y == key x) ≡ false) (λ y. (key y == key x) ≡ false) p f xs
            (λ y off _. rw (same y) off) (λ y off _. off) u.0

  pub Unique-append : (xs : List A) (x : A) → Unique xs → Absent (key x) xs → Unique (xs ++ x ∷ [])
  Unique-append [] x u h = (tt, tt)
  Unique-append (y ∷ ys) x u h = (
    All-append (λ z. (key z == key y) ≡ false) ys (x ∷ []) u.0 (==_flip (key x) (key y) h.0, tt),
    Unique-append ys x u.1 h.1,
  )

  pub Unique-delete : (p : A → Bool) (xs : List A) → Unique xs → Unique (delete p xs)
  Unique-delete p [] u = tt
  Unique-delete p (x ∷ xs) u = elim (Bool-cases (p x)) [
    | inl t ↦ rw t (Unique-delete p xs u.1)
    | inr n ↦ rw n (All-delete _ p xs u.0, Unique-delete p xs u.1)
  ]

  count-Absent : (p : A → Bool) (k : K) (xs : List A) → Within p k → Absent k xs → count p xs ≡ 0
  count-Absent p k [] w h = refl
  count-Absent p k (x ∷ xs) w h = ground (arith, w x, count-Absent p k xs w h.1)

  -- With a unique key the rows of a key are the one that is found, so what it does not meet none meets.
  pub count-off :
      (p q : A → Bool) (xs : List A) {r : A}
      → Within p (key r)
      → Unique xs
      → first q xs ≡ some r
      → p r ≡ false
      → count p xs ≡ 0
  count-off p q [] w u h off = refl
  count-off p q (x ∷ xs) {r} w u h off = elim (Bool-cases (q x)) [
    | inl on ↦
        let same : x ≡ r = ground arith in
        rw same (let rest = count-Absent p (key r) xs w (rw same at u.0) in ground arith)
    | inr n ↦
        let found : first q xs ≡ some r = ground arith in
        let rest = count-off p q xs {r = r} w u.1 found off in
        let apart : (key r == key x) ≡ false =
          All-first (λ y. (key y == key x) ≡ false) q xs u.0 found in
        let off' : (key x == key r) ≡ false = ==_flip (key x) (key r) apart in ground (arith, w x)
  ]

  -- A row that is found under a further condition is the first one with its key.
  pub first-Unique :
      (p : A → Bool) (k : K) (xs : List A) {r : A}
      → Unique xs
      → first (λ x. key x == k && p x) xs ≡ some r
      → first (λ x. key x == k) xs ≡ some r
  first-Unique p k [] u h = h
  first-Unique p k (x ∷ xs) {r} u h = elim (Bool-cases (key x == k)) [
    | inl on ↦ elim (Bool-cases (p x)) [
      | inl met ↦ ground arith
      | inr unmet ↦
          let found : first (λ y. key y == k && p y) xs ≡ some r = ground arith in
          absurd (
            elsewhere (λ y. key y == k && p y) k (key x) xs {r = r} (λ y both. ground arith) u.0
              ((e.decides (key x) k).0 on) found)
    ]
    | inr off ↦ let ih = first-Unique p k xs {r = r} u.1 (ground arith) in ground arith
  ]

  -- With a unique key exactly one row is met where the one that is found is met.
  pub count-on :
      (p q : A → Bool) (xs : List A) {r : A}
      → Within p (key r)
      → Unique xs
      → first q xs ≡ some r
      → p r ≡ true
      → count p xs ≡ 1
  count-on p q [] w u h on = absurd (cc)
  count-on p q (x ∷ xs) {r} w u h met = elim (Bool-cases (q x)) [
    | inl on ↦
        let same : x ≡ r = ground arith in
        rw same (let rest = count-Absent p (key r) xs w (rw same at u.0) in ground arith)
    | inr n ↦
        let found : first q xs ≡ some r = ground arith in
        let rest = count-on p q xs {r = r} w u.1 found met in
        let apart : (key r == key x) ≡ false =
          All-first (λ y. (key y == key x) ≡ false) q xs u.0 found in
        let off' : (key x == key r) ≡ false = ==_flip (key x) (key r) apart in ground (arith, w x)
  ]
