-- ===== src/Limiter/Lockouts.antt =====
-- When a key of the limiter of licensing-master/src/ratelimit.py is locked out, and for how long.
use licensing_master.Base.{
  ℕ, ◌+◌, ◌*◌, ◌≤◌, ◌<◌, ◌≡◌, refl, String, ◌==◌, string_eq, ==_refl, true, false, some, List, [],
  ◌∷◌, ◌++◌, leb, arith, Bool-cases, inl, inr,
}
use licensing_master.Limiter.Room.{IsLike, make_room-IsLike}
use licensing_master.Limiter.{
  Dict, Limiter, lookup, put, length, us_per_second, ceil_seconds, retry_until, retry_after,
  drop_old, hits_of, make_room, count_failure, record_failure,
}

pub lookup-put :
    {A : Type 0} (key : String) (a : A) (d : Dict A) → lookup key (put key a d) ≡ some a
lookup-put key a [] = rw (==_refl key) refl
lookup-put key a ((k, b) ∷ rest) = elim (Bool-cases (k == key)) [
  | inl same ↦ rw (same, same) refl
  | inr other ↦ rw (other, other) (lookup-put key a rest)
]

-- What a locked key is told: it is free once the lockout has ended, and the seconds it has to wait are
-- the least whole number after which it has.
pub retry_after-locked :
    (l : Limiter) (key : String) (until at : ℕ)
    → lookup key l.locked_until ≡ some until
    → at < until
    → ((retry_after key at l).1 ≡ l)
      × (until ≤ at + (retry_after key at l).0 * us_per_second)
      × (at + (retry_after key at l).0 * us_per_second < until + us_per_second)
unfolding retry_after retry_until ceil_seconds us_per_second
retry_after-locked l key until at locked early =
    let running : leb until at ≡ false = ground arith in
    rw (locked, running) (refl, omega arith, omega arith)

count_failure-locks :
    (l : Limiter) (key : String) (at later : ℕ)
    → l.max_failures ≤ length (drop_old l at (hits_of key l ++ at ∷ []))
    → later < at + l.lockout_seconds * us_per_second
    → 0 < (retry_after key later (count_failure key at l)).0
unfolding count_failure retry_after retry_until ceil_seconds us_per_second
count_failure-locks l key at later enough early =
    let full : leb l.max_failures (length (drop_old l at (hits_of key l ++ at ∷ []))) ≡ true =
      ground arith in
    let running : leb (at + l.lockout_seconds * us_per_second) later ≡ false = ground arith in
    rw (full, lookup-put key (at + l.lockout_seconds * us_per_second) l.locked_until, running)
      (omega arith)

pub drop_old-like :
    (l m : Limiter) (at : ℕ) (hits : List ℕ) → IsLike l m → drop_old m at hits ≡ drop_old l at hits
drop_old-like l m at [] like = refl
drop_old-like l m at (hit ∷ hits) like = rw (like.window, drop_old-like l m at hits like) refl

-- A key with as many failures in the window as are allowed, the one at hand with them, is locked out
-- for the lockout's seconds from now, and is told so until then.
pub record_failure-locks :
    (l : Limiter) (key : String) (at later : ℕ)
    → l.max_failures ≤ length (drop_old l at (hits_of key l ++ at ∷ []))
    → later < at + l.lockout_seconds * us_per_second
    → 0 < (retry_after key later (record_failure key at l)).0
unfolding record_failure
record_failure-locks l key at later enough early =
    let (like, hits) = make_room-IsLike key l at in
    count_failure-locks (make_room key at l) key at later
      (rw
        (
          hits,
          like.failures_allowed,
          drop_old-like l (make_room key at l) at (hits_of key l ++ at ∷ []) like,
        )
        enough)
      (rw like.lockout early)
