-- ===== src/Limiter/Room.antt =====
-- What pruning leaves alone in the limiter of licensing-master/src/ratelimit.py.
use licensing_master.Base.{
  ℕ, ◌≡◌, refl, String, ◌==◌, string_eq, true, not, ◌&&◌, Option, none, some, is_some, List, [],
  ◌∷◌, leb, arith, if◌then◌else◌, Bool-cases, Option-cases, if-both, ap, sym, ◌∙◌, inl, inr,
}
use licensing_master.Limiter.{
  Dict, Limiter, lookup, pop, length, clear, is_stale, is_free, drop_stale, evict, prune, make_room,
  hits_of,
}

lookup-pop-none :
    {A : Type 0} (key k : String) (d : Dict A) → lookup key d ≡ none → lookup key (pop k d) ≡ none
lookup-pop-none key k [] h = refl
lookup-pop-none key k ((j, a) ∷ rest) h = elim (Bool-cases (j == key)) [
  | inl same ↦ absurd (ground arith)
  | inr other ↦ elim (Bool-cases (j == k)) [
    | inl popped ↦ rw popped (rw other at h)
    | inr kept ↦ rw (kept, other) (lookup-pop-none key k rest (rw other at h))
  ]
]

-- the thresholds of a limiter, as `l` has them
pub record IsLike (l m : Limiter) : Type 0 where
  pub failures_allowed : m.max_failures ≡ l.max_failures
  pub window : m.window_seconds ≡ l.window_seconds
  pub lockout : m.lockout_seconds ≡ l.lockout_seconds
  pub keys : m.max_keys ≡ l.max_keys

hits_of-none : (key : String) (m : Limiter) → lookup key m.failures ≡ none → hits_of key m ≡ []
hits_of-none key m gone = ap (λ (o : Option (List ℕ)). elim o [ none ↦ [] | some hits ↦ hits ]) gone

module _ (key : String) (l : Limiter) where
  -- a limiter with the thresholds of `l` that does not track the key
  abbrev IsWithout : Limiter → Type 0
  IsWithout m = IsLike l m × (lookup key m.failures ≡ none)

  clear-IsWithout : (k : String) (m : Limiter) → IsWithout m → IsWithout (clear k m)
  clear-IsWithout k m (like, gone) = (
    record {
      failures_allowed = like.failures_allowed;
      window = like.window;
      lockout = like.lockout;
      keys = like.keys;
    },
    lookup-pop-none key k m.failures gone,
  )

  drop_stale-IsWithout :
      (at : ℕ) (entries : Dict (List ℕ)) (m : Limiter)
      → IsWithout m
      → IsWithout (drop_stale at entries m)
  unfolding drop_stale
  drop_stale-IsWithout at [] m h = h
  drop_stale-IsWithout at ((k, hits) ∷ rest) m h =
      drop_stale-IsWithout at rest (if is_stale m at hits && is_free m at k then clear k m else m) (
        if-both IsWithout (is_stale m at hits && is_free m at k) (clear k m) m
          (λ _. clear-IsWithout k m h) (λ _. h))

  evict-IsWithout :
      (entries : Dict (List ℕ)) (m : Limiter) → IsWithout m → IsWithout (evict entries m)
  unfolding evict
  evict-IsWithout [] m h = h
  evict-IsWithout ((k, hits) ∷ rest) m h =
      if-both IsWithout (leb m.max_keys (length m.failures)) (evict rest (clear k m)) m
        (λ _. evict-IsWithout rest (clear k m) (clear-IsWithout k m h)) (λ _. h)

  prune-IsWithout : (at : ℕ) → IsWithout l → IsWithout (prune at l)
  unfolding prune
  prune-IsWithout at h =
      evict-IsWithout (drop_stale at l.failures l).failures (drop_stale at l.failures l)
        (drop_stale-IsWithout at l.failures l h)

  -- Making room for a key keeps the thresholds and what the key has on record.
  pub make_room-IsLike :
      (at : ℕ) → IsLike l (make_room key at l) × (hits_of key (make_room key at l) ≡ hits_of key l)
  unfolding make_room
  make_room-IsLike at =
      if-both (λ m. IsLike l m × (hits_of key m ≡ hits_of key l))
        (leb l.max_keys (length l.failures) && not (is_some (lookup key l.failures))) (prune at l) l
        (λ full.
          let (like, gone) = prune-IsWithout at (itself, untracked full) in
          (like, hits_of-none key (prune at l) gone ∙ sym (hits_of-none key l (untracked full))))
        (λ _. (itself, refl))
    where
      itself : IsLike l l
      itself = record { failures_allowed = refl; window = refl; lockout = refl; keys = refl }

      untracked :
          (leb l.max_keys (length l.failures) && not (is_some (lookup key l.failures))) ≡ true
          → lookup key l.failures ≡ none
      untracked full = elim (Option-cases (lookup key l.failures)) [
        | inl gone ↦ gone
        | inr (hits, tracked) ↦ absurd (ground (arith, ap is_some tracked))
      ]
