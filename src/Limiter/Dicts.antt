-- ===== src/Limiter/Dicts.antt =====
-- The `dict`s of licensing-master/src/ratelimit.py: what a key holds after each change.
use licensing_master.Base.{
  suc, ◌≤◌, ◌≡◌, refl, String, ◌==◌, string_eq, none, some, [], ◌∷◌, Bool-cases, inl, inr, arith,
  if◌then◌else◌, eq_iff,
}
use licensing_master.Limiter.{Dict, lookup, put, pop, length}

module _ {A : Type 0} where
  -- no key stands twice
  abbrev pub IsDict : Dict A → Type 0
  IsDict [] = Unit
  IsDict ((k, _) ∷ rest) = (lookup k rest ≡ none) × IsDict rest

  pub lookup-put_any :
      (key k : String) (a : A) (d : Dict A)
      → lookup k (put key a d) ≡ (if key == k then some a else lookup k d)
  lookup-put_any key k a [] = refl
  lookup-put_any key k a ((j, b) ∷ rest) =
      ground (arith, eq_iff j key, eq_iff j k, eq_iff key k, lookup-put_any key k a rest)

  pub lookup-pop :
      (key k : String) (d : Dict A)
      → IsDict d
      → lookup k (pop key d) ≡ (if key == k then none else lookup k d)
  lookup-pop key k [] h = ground arith
  lookup-pop key k ((j, b) ∷ rest) h =
      ground (arith, eq_iff j key, eq_iff j k, eq_iff key k, lookup-pop key k rest h.1)

  pub put-IsDict : (key : String) (a : A) (d : Dict A) → IsDict d → IsDict (put key a d)
  put-IsDict key a [] h = (refl, tt)
  put-IsDict key a ((j, b) ∷ rest) h = elim (Bool-cases (j == key)) [
    | inl same ↦ rw same h
    | inr other ↦ rw other (
      ground (arith, eq_iff j key, eq_iff key j, lookup-put_any key j a rest),
      put-IsDict key a rest h.1,
    )
  ]

  pub pop-IsDict : (key : String) (d : Dict A) → IsDict d → IsDict (pop key d)
  pop-IsDict key [] h = tt
  pop-IsDict key ((j, b) ∷ rest) h = elim (Bool-cases (j == key)) [
    | inl same ↦ rw same h.1
    | inr other ↦ rw other (
      ground (arith, eq_iff j key, eq_iff key j, lookup-pop key j rest h.1),
      pop-IsDict key rest h.1,
    )
  ]

  pub length-put : (key : String) (a : A) (d : Dict A) → length (put key a d) ≤ suc (length d)
  length-put key a [] = omega arith
  length-put key a ((j, b) ∷ rest) = ground (arith, length-put key a rest)

  pub length-pop : (key : String) (d : Dict A) → length (pop key d) ≤ length d
  length-pop key [] = omega arith
  length-pop key ((j, b) ∷ rest) = ground (arith, length-pop key rest)
