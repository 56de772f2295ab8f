-- ===== src/Limiter/Waits.antt =====
-- Waiting as long as the limiter of licensing-master/src/ratelimit.py says.
use licensing_master.Base.{
  ℕ, ◌+◌, ◌*◌, ◌≤◌, ◌≡◌, refl, String, string_eq, ==_refl, true, none, some, leb, Bool-cases,
  Option-cases, inl, inr, arith,
}
use licensing_master.Limiter.{Limiter, lookup, us_per_second, clear, retry_until, retry_after}
use licensing_master.Limiter.Dicts.{IsDict, lookup-pop}
use licensing_master.Limiter.Lockouts.{retry_after-locked}

module _ (l : Limiter) (key : String) (dict : IsDict l.locked_until) where
  free : (at : ℕ) (m : Limiter) → lookup key m.locked_until ≡ none → (retry_after key at m).0 ≡ 0
  free at m none_ = unfold retry_after retry_until in rw none_ refl

  cleared : lookup key (clear key l).locked_until ≡ none
  cleared = let e = lookup-pop key key l.locked_until dict in rw (==_refl key) at e

  idle : lookup key l.locked_until ≡ none → (at : ℕ) → retry_after key at l ≡ (0, l)
  unfolding retry_after retry_until
  idle none_ at = rw none_ refl

  over :
      (until at : ℕ)
      → lookup key l.locked_until ≡ some until
      → until ≤ at
      → (retry_after key at l ≡ (0, clear key l))
  unfolding retry_after retry_until
  over until at locked h = let done : leb until at ≡ true = ground arith in rw (locked, done) refl

  -- Whoever asks, waits as many seconds as the answer says and asks again is let in, and the failures are
  -- forgotten where there was a lockout.
  pub retry_after-waits :
      (at : ℕ)
      → ((retry_after key
            (at + (retry_after key at l).0 * us_per_second)
            (retry_after key at l).1).0
          ≡ 0)
        × (lookup key
              (retry_after key
                (at + (retry_after key at l).0 * us_per_second)
                (retry_after key at l).1).1.locked_until
            ≡ none)
  retry_after-waits at = elim (Option-cases (lookup key l.locked_until)) [
    | inl none_ ↦ rw (idle none_ at, idle none_ (at + 0 * us_per_second)) (refl, none_)
    | inr (until, locked) ↦ elim (Bool-cases (leb until at)) [
      | inl done ↦
          let first : retry_after key at l ≡ (0, clear key l) =
            over until at locked (ground arith) in
          rw first
            (free _ (clear key l) cleared, unfold retry_after retry_until in rw cleared cleared)
      | inr running ↦
          let (same, enough, _) = retry_after-locked l key until at locked (ground arith) in
          rw (same, over until _ locked enough) (refl, cleared)
    ]
  ]
