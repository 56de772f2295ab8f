-- ===== src/Limiter.antt =====
-- `FailureLimiter` of licensing-master/src/ratelimit.py. Its two `dict`s are lists of entries in the
-- order of insertion, and times are microseconds of the monotonic clock.
pub mod Dicts
pub mod Windows
pub mod Specification
pub mod Accounts
pub mod Refinement
pub mod Waits
pub mod Room
pub mod Lockouts
pub mod Capacity
use licensing_master.Base.{
  ℕ, suc, ◌+◌, ◌-◌, ◌*◌, ◌/◌, String, ◌==◌, nat_eq, string_eq, Bool, true, false, not, ◌&&◌, Option,
  none, some, is_some, List, [], ◌∷◌, ◌++◌, leb, if◌then◌else◌,
}

abbrev pub Dict {ℓ} : Type ℓ → Type ℓ
Dict A = List (String × A)

module _ {ℓ} {A : Type ℓ} where
  -- `d.get(key)`
  abbrev pub lookup : String → Dict A → Option A
  lookup key [] = none
  lookup key ((k, a) ∷ rest) = if k == key then some a else lookup key rest

  -- `d[key] = a`: an old entry keeps its place
  abbrev pub put : String → A → Dict A → Dict A
  put key a [] = (key, a) ∷ []
  put key a ((k, b) ∷ rest) =
      let others = put key a rest in if k == key then (k, a) ∷ rest else (k, b) ∷ others

  -- `d.pop(key, None)`
  abbrev pub pop : String → Dict A → Dict A
  pop key [] = []
  pop key ((k, b) ∷ rest) = let others = pop key rest in if k == key then rest else (k, b) ∷ others

  -- `len`, of a `dict` and of a `deque`
  abbrev pub length : List A → ℕ
  length [] = 0
  length (_ ∷ rest) = suc (length rest)

pub record Limiter : Type 0 where
  pub max_failures : ℕ
  pub window_seconds : ℕ
  pub lockout_seconds : ℕ
  pub max_keys : ℕ
  pub failures : Dict (List ℕ)
  pub locked_until : Dict ℕ

-- one second, in microseconds
unfoldable pub us_per_second : ℕ
us_per_second = 1_000_000

-- `math.ceil` of a number of microseconds, in seconds
unfoldable pub ceil_seconds : ℕ → ℕ
ceil_seconds us = (us + us_per_second - 1) / us_per_second

-- `clear`
abbrev pub clear : String → Limiter → Limiter
clear key l = record l { failures = pop key l.failures; locked_until = pop key l.locked_until }

-- `retry_after`, by the entry of `_locked_until`
unfoldable pub retry_until : Option ℕ → String → ℕ → Limiter → ℕ × Limiter
retry_until none key at l = (0, l)
retry_until (some until) key at l =
    if leb until at then (0, clear key l) else (ceil_seconds (until - at), l)

-- `retry_after`
unfoldable pub retry_after : String → ℕ → Limiter → ℕ × Limiter
retry_after key at l = retry_until (lookup key l.locked_until) key at l

-- `hit <= now - window_seconds`
abbrev pub is_old : Limiter → ℕ → ℕ → Bool
is_old l at hit = leb (hit + l.window_seconds * us_per_second) at

-- `while hits and hits[0] <= cutoff: hits.popleft()`
abbrev pub drop_old : Limiter → ℕ → List ℕ → List ℕ
drop_old l at [] = []
drop_old l at (hit ∷ hits) =
    let rest = drop_old l at hits in if is_old l at hit then rest else hit ∷ hits

-- `not h or h[-1] <= cutoff`
abbrev pub is_stale : Limiter → ℕ → List ℕ → Bool
is_stale l at [] = true
is_stale l at (hit ∷ []) = is_old l at hit
is_stale l at (_ ∷ hit ∷ hits) = is_stale l at (hit ∷ hits)

-- `self._locked_until.get(k, 0) <= now`
abbrev pub is_free : Limiter → ℕ → String → Bool
is_free l at key = elim (lookup key l.locked_until) [ none ↦ true | some until ↦ leb until at ]

-- the first loop of `_prune`, over a copy of the entries
unfoldable pub drop_stale : ℕ → Dict (List ℕ) → Limiter → Limiter
drop_stale at [] l = l
drop_stale at ((key, hits) ∷ rest) l =
    drop_stale at rest (if is_stale l at hits && is_free l at key then clear key l else l)

-- the second loop of `_prune`: the oldest entries go while there are too many
unfoldable pub evict : Dict (List ℕ) → Limiter → Limiter
evict [] l = l
evict ((oldest, _) ∷ rest) l =
    if leb l.max_keys (length l.failures) then evict rest (clear oldest l) else l

-- `_prune`
unfoldable pub prune : ℕ → Limiter → Limiter
prune at l = let kept = drop_stale at l.failures l in evict kept.failures kept

-- room for the key, before it is counted
unfoldable pub make_room : String → ℕ → Limiter → Limiter
make_room key at l =
    if leb l.max_keys (length l.failures) && not (is_some (lookup key l.failures))
    then prune at l
    else l

-- `setdefault(key, deque())`
abbrev pub hits_of : String → Limiter → List ℕ
hits_of key l = elim (lookup key l.failures) [ none ↦ [] | some hits ↦ hits ]

-- the counting part of `record_failure`
unfoldable pub count_failure : String → ℕ → Limiter → Limiter
count_failure key at l =
    let hits = drop_old l at (hits_of key l ++ at ∷ []) in
    record l {
      failures = put key hits l.failures;
      locked_until =
          if leb l.max_failures (length hits)
          then put key (at + l.lockout_seconds * us_per_second) l.locked_until
          else l.locked_until;
    }

-- `record_failure`
unfoldable pub record_failure : String → ℕ → Limiter → Limiter
record_failure key at l = count_failure key at (make_room key at l)

-- `reset`
unfoldable pub reset : Limiter → Limiter
reset l = record l { failures = []; locked_until = [] }

-- `tracked_keys`
unfoldable pub tracked_keys : Limiter → ℕ
tracked_keys l = length l.failures
