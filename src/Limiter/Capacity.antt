-- ===== src/Limiter/Capacity.antt =====
-- How many keys the limiter of licensing-master/src/ratelimit.py tracks.
use licensing_master.Base.{
  ℕ, suc, ◌≤◌, ◌<◌, ◌≡◌, ◌⊎◌, refl, ap, ◌∙◌, String, ◌==◌, string_eq, ==_refl, true, not, ◌&&◌,
  is_some, List, [], ◌∷◌, leb, arith, if◌then◌else◌, Bool-cases, if-both, inl, inr, Option, none,
  some,
}
use licensing_master.Limiter.{
  Dict, Limiter, lookup, put, pop, length, clear, is_stale, is_free, drop_stale, evict, prune,
  make_room, count_failure, record_failure, tracked_keys, retry_until, retry_after,
}
use licensing_master.Limiter.Specification.{Call}
use licensing_master.Limiter.Room.{make_room-IsLike}

length-put_le :
    {A : Type 0} (key : String) (a : A) (d : Dict A) → length (put key a d) ≤ suc (length d)
length-put_le key a [] = omega arith
length-put_le key a ((k, b) ∷ rest) = elim (Bool-cases (k == key)) [
  | inl same ↦ rw same (omega arith)
  | inr other ↦ rw other (let ih = length-put_le key a rest in omega arith)
]

length-put_old :
    {A : Type 0} (key : String) (a : A) (d : Dict A)
    → is_some (lookup key d) ≡ true
    → length (put key a d) ≡ length d
length-put_old key a [] h = absurd (cc)
length-put_old key a ((k, b) ∷ rest) h = elim (Bool-cases (k == key)) [
  | inl same ↦ rw same refl
  | inr other ↦ rw other (ap (λ n. suc n) (length-put_old key a rest (rw other at h)))
]

drop_stale-keys :
    (at : ℕ) (entries : Dict (List ℕ)) (l : Limiter)
    → (drop_stale at entries l).max_keys ≡ l.max_keys
unfolding drop_stale
drop_stale-keys at [] l = refl
drop_stale-keys at ((k, hits) ∷ rest) l =
    drop_stale-keys at rest (if is_stale l at hits && is_free l at k then clear k l else l)
    ∙ if-both (λ m. m.max_keys ≡ l.max_keys) (is_stale l at hits && is_free l at k) (clear k l) l
        (λ _. refl) (λ _. refl)

-- Eviction from the front stops below the capacity.
evict-room :
    (entries : Dict (List ℕ)) (l : Limiter)
    → l.failures ≡ entries
    → 0 < l.max_keys
    → length (evict entries l).failures < l.max_keys
unfolding evict
evict-room [] l same some_keys = rw same some_keys
evict-room ((k, hits) ∷ rest) l same some_keys =
    if-both (λ m. length m.failures < l.max_keys) (leb l.max_keys (length l.failures))
      (evict rest (clear k l)) l
      (λ _. evict-room rest (clear k l) (ap (pop k) same ∙ rw (==_refl k) refl) some_keys)
      (λ below. ground arith)

prune-room : (at : ℕ) (l : Limiter) → 0 < l.max_keys → length (prune at l).failures < l.max_keys
unfolding prune drop_stale
prune-room at l some_keys =
    let keys = drop_stale-keys at l.failures l in
    let room =
      evict-room (drop_stale at l.failures l).failures (drop_stale at l.failures l) refl
        (rw keys some_keys) in
    rw keys at room

-- a limiter in which the key may be counted, within `k` keys
abbrev HasRoom : String → ℕ → Limiter → Type 0
HasRoom key k m =
    (length m.failures < k) ⊎ ((is_some (lookup key m.failures) ≡ true) × (length m.failures ≤ k))

make_room-HasRoom :
    (key : String) (at : ℕ) (l : Limiter)
    → 0 < l.max_keys
    → length l.failures ≤ l.max_keys
    → HasRoom key l.max_keys (make_room key at l)
unfolding make_room
make_room-HasRoom key at l some_keys bound =
    if-both (HasRoom key l.max_keys)
      (leb l.max_keys (length l.failures) && not (is_some (lookup key l.failures))) (prune at l) l
      (λ _. inl (prune-room at l some_keys))
      (λ open_. elim (Bool-cases (is_some (lookup key l.failures))) [
        | inl tracked ↦ inr (tracked, bound)
        | inr fresh ↦ inl (ground arith)
      ])

put_fits :
    (key : String) (k : ℕ) (hits : List ℕ) (m : Limiter)
    → HasRoom key k m
    → length (put key hits m.failures) ≤ k
put_fits key k hits m (inl below) = let le = length-put_le key hits m.failures in omega arith
put_fits key k hits m (inr (tracked, within)) =
    rw (length-put_old key hits m.failures tracked) within

-- at most `k` keys are tracked, and `k` may be
abbrev IsBounded : ℕ → Limiter → Type 0
IsBounded k l = (l.max_keys ≡ k) × (length l.failures ≤ k)

record_failure_fits :
    (key : String) (at : ℕ) (l : Limiter)
    → 0 < l.max_keys
    → length l.failures ≤ l.max_keys
    → length (record_failure key at l).failures ≤ l.max_keys
unfolding record_failure count_failure
record_failure_fits key at l some_keys bound =
    put_fits key l.max_keys _ (make_room key at l) (make_room-HasRoom key at l some_keys bound)

record_failure-keys :
    (key : String) (at : ℕ) (l : Limiter) → (record_failure key at l).max_keys ≡ l.max_keys
unfolding record_failure count_failure
record_failure-keys key at l = let like = (make_room-IsLike key l at).0 in like.keys

record_failure-IsBounded :
    (k : ℕ) (key : String) (at : ℕ) (l : Limiter)
    → 0 < k
    → IsBounded k l
    → IsBounded k (record_failure key at l)
record_failure-IsBounded k key at l some_keys (keys, bound) =
    let fit : length (record_failure key at l).failures ≤ l.max_keys =
      record_failure_fits key at l (omega arith) (omega arith) in
    (record_failure-keys key at l ∙ keys, omega arith)

length-pop_le : {A : Type 0} (key : String) (d : Dict A) → length (pop key d) ≤ length d
length-pop_le key [] = omega arith
length-pop_le key ((k, b) ∷ rest) = elim (Bool-cases (k == key)) [
  | inl same ↦ rw same (omega arith)
  | inr other ↦ rw other (let ih = length-pop_le key rest in omega arith)
]

clear-IsBounded : (k : ℕ) (key : String) (l : Limiter) → IsBounded k l → IsBounded k (clear key l)
clear-IsBounded k key l (keys, bound) = (keys, let le = length-pop_le key l.failures in omega arith)

retry_after-IsBounded :
    (k : ℕ) (key : String) (at : ℕ) (l : Limiter)
    → IsBounded k l
    → IsBounded k (retry_after key at l).1
unfolding retry_after retry_until
retry_after-IsBounded k key at l h = by_entry (lookup key l.locked_until)
  where
    by_entry : (o : Option ℕ) → IsBounded k (retry_until o key at l).1
    by_entry none = h
    by_entry (some until) = elim (Bool-cases (leb until at)) [
      | inl over ↦ rw over (clear-IsBounded k key l h)
      | inr locked ↦ rw locked h
    ]

-- the limiter after a sequence of calls
abbrev pub after : Limiter → List Call → Limiter
after l [] = l
after l (Call.fail key at ∷ calls) = after (record_failure key at l) calls
after l (Call.ask key at ∷ calls) = after (retry_after key at l).1 calls
after l (Call.forgive key ∷ calls) = after (clear key l) calls

after-IsBounded :
    (k : ℕ) (calls : List Call) (l : Limiter) → 0 < k → IsBounded k l → IsBounded k (after l calls)
after-IsBounded k [] l some_keys h = h
after-IsBounded k (Call.fail key at ∷ calls) l some_keys h =
    after-IsBounded k calls _ some_keys (record_failure-IsBounded k key at l some_keys h)
after-IsBounded k (Call.ask key at ∷ calls) l some_keys h =
    after-IsBounded k calls _ some_keys (retry_after-IsBounded k key at l h)
after-IsBounded k (Call.forgive key ∷ calls) l some_keys h =
    after-IsBounded k calls _ some_keys (clear-IsBounded k key l h)

-- A new limiter that may track at least one key tracks at most as many as it may after every sequence
-- of failures, questions and resets, whatever the keys and the times.
pub tracked_keys-bounded :
    (l : Limiter) (calls : List Call)
    → l.failures ≡ []
    → 0 < l.max_keys
    → tracked_keys (after l calls) ≤ l.max_keys
unfolding tracked_keys
tracked_keys-bounded l calls new some_keys =
    (after-IsBounded l.max_keys calls l some_keys (refl, rw new (omega arith))).1
