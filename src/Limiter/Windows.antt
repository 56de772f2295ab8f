-- ===== src/Limiter/Windows.antt =====
-- The sliding window of licensing-master/src/ratelimit.py: dropping old hits from the left, against the
-- hits of a whole history that lie in the window.
use licensing_master.Base.{
  ℕ, ◌+◌, ◌*◌, ◌≤◌, ◌≡◌, refl, ap, ◌∙◌, sym, Bool, true, false, List, [], ◌∷◌, ◌++◌, ltb,
  Bool-cases, inl, inr, arith,
}
use licensing_master.Base.Rows.{select, All, All-append, All-map}
use licensing_master.Limiter.{Limiter, us_per_second, is_old, drop_old}

-- the times of failures, the oldest first
abbrev pub IsAscending : List ℕ → Type 0
IsAscending [] = Unit
IsAscending (x ∷ xs) = All (λ y. x ≤ y) xs × IsAscending xs

pub IsAscending-append :
    (xs : List ℕ) (x : ℕ) → IsAscending xs → All (λ y. y ≤ x) xs → IsAscending (xs ++ x ∷ [])
IsAscending-append [] x h k = (tt, tt)
IsAscending-append (y ∷ ys) x h k =
    (All-append (λ z. y ≤ z) ys (x ∷ []) h.0 (k.0, tt), IsAscending-append ys x h.1 k.1)

select-append : (p : ℕ → Bool) (xs ys : List ℕ) → select p (xs ++ ys) ≡ select p xs ++ select p ys
select-append p [] ys = refl
select-append p (x ∷ xs) ys = elim (Bool-cases (p x)) [
  | inl on ↦ rw (on, select-append p xs ys) refl
  | inr off ↦ rw (off, select-append p xs ys) refl
]

select-All : (P : ℕ → Type 0) (p : ℕ → Bool) (xs : List ℕ) → All P xs → All P (select p xs)
select-All P p [] h = tt
select-All P p (x ∷ xs) h = elim (Bool-cases (p x)) [
  | inl on ↦ rw on (h.0, select-All P p xs h.1)
  | inr off ↦ rw off (select-All P p xs h.1)
]

select-IsAscending : (p : ℕ → Bool) (xs : List ℕ) → IsAscending xs → IsAscending (select p xs)
select-IsAscending p [] h = tt
select-IsAscending p (x ∷ xs) h = elim (Bool-cases (p x)) [
  | inl on ↦ rw on (select-All (λ y. x ≤ y) p xs h.0, select-IsAscending p xs h.1)
  | inr off ↦ rw off (select-IsAscending p xs h.1)
]

module _ (l : Limiter) where
  -- the hit lies in the window that ends at `at`
  abbrev pub is_recent : ℕ → ℕ → Bool
  is_recent at hit = ltb at (hit + l.window_seconds * us_per_second)

  -- the hits of a history in the window
  abbrev pub recent : ℕ → List ℕ → List ℕ
  recent at hits = select (is_recent at) hits

  recent-All :
      (at hit : ℕ) (hits : List ℕ)
      → is_recent at hit ≡ true
      → All (λ y. hit ≤ y) hits
      → recent at hits ≡ hits
  recent-All at hit [] on h = refl
  recent-All at hit (x ∷ xs) on h =
      let later : is_recent at x ≡ true = ground (arith, h.0) in
      rw (later, recent-All at hit xs on h.1) refl

  drop_old-recent :
      (at : ℕ) (hits : List ℕ) → IsAscending hits → drop_old l at hits ≡ recent at hits
  drop_old-recent at [] h = refl
  drop_old-recent at (x ∷ xs) h = elim (Bool-cases (is_old l at x)) [
    | inl old ↦
        let off : is_recent at x ≡ false = ground arith in rw (old, off) (drop_old-recent at xs h.1)
    | inr young ↦
        let on : is_recent at x ≡ true = ground arith in
        rw (young, on, recent-All at x xs on h.0) refl
  ]

  recent-recent :
      (since at : ℕ) (hits : List ℕ) → since ≤ at → recent at (recent since hits) ≡ recent at hits
  recent-recent since at [] h = refl
  recent-recent since at (x ∷ xs) h = elim (Bool-cases (is_recent since x)) [
    | inl on ↦ elim (Bool-cases (is_recent at x)) [
      | inl in_ ↦ rw (on, in_, recent-recent since at xs h) refl
      | inr out ↦ rw (on, out) (recent-recent since at xs h)
    ]
    | inr off ↦
        let out : is_recent at x ≡ false = ground arith in
        rw (off, out) (recent-recent since at xs h)
  ]

  -- What the deque holds after a failure, where it held the recent hits of a history at an earlier
  -- failure: the recent hits of the history and the failure.
  pub drop_old-append :
      (since at : ℕ) (hits : List ℕ)
      → since ≤ at
      → IsAscending hits
      → All (λ y. y ≤ since) hits
      → drop_old l at (recent since hits ++ at ∷ []) ≡ recent at (hits ++ at ∷ [])
  drop_old-append since at hits early up bounded =
      drop_old-recent at (recent since hits ++ at ∷ []) (
        IsAscending-append (recent since hits) at (select-IsAscending _ hits up) (
          select-All (λ y. y ≤ at) (is_recent since) hits
            (All-map (λ y. y ≤ since) (λ y. y ≤ at) hits (λ y h. omega arith) bounded)))
      ∙ select-append (is_recent at) (recent since hits) (at ∷ [])
      ∙ ap (λ xs. xs ++ recent at (at ∷ [])) (recent-recent since at hits early)
      ∙ sym (select-append (is_recent at) hits (at ∷ []))
