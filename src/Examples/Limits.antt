-- ===== src/Examples/Limits.antt =====
-- A limiter that allows two failures.
use licensing_master.Base.{◌+◌, ◌*◌, ◌≤◌, ◌<◌, ◌≡◌, refl, arith, none, List, [], ◌∷◌}
use licensing_master.Limiter.{
  Limiter, lookup, retry_after, record_failure, tracked_keys, us_per_second,
}
use licensing_master.Limiter.Lockouts.{retry_after-locked, record_failure-locks}
use licensing_master.Limiter.Specification.{Call, answers, promised, clean}
use licensing_master.Limiter.Refinement.{answers_lem}
use licensing_master.Limiter.Waits.{retry_after-waits}
use licensing_master.Limiter.Capacity.{after, tracked_keys-bounded}

abbrev strict : Limiter
strict = record {
  max_failures = 2;
  window_seconds = 60;
  lockout_seconds = 300;
  max_keys = 2;
  failures = ("10.0.0.1", 1_000_000 ∷ []) ∷ ("10.0.0.2", 2_000_000 ∷ []) ∷ [];
  locked_until = ("10.0.0.3", 9_500_000) ∷ [];
}

retry_after-locked_example :
    ((retry_after "10.0.0.3" 3_000_000 strict).1 ≡ strict)
    × (9_500_000 ≤ 3_000_000 + (retry_after "10.0.0.3" 3_000_000 strict).0 * us_per_second)
    × (3_000_000 + (retry_after "10.0.0.3" 3_000_000 strict).0 * us_per_second
        < 9_500_000 + us_per_second)
retry_after-locked_example =
    retry_after-locked strict "10.0.0.3" 9_500_000 3_000_000 refl (omega arith)

record_failure-locks_example :
    0 < (retry_after "10.0.0.1" 4_000_000 (record_failure "10.0.0.1" 3_000_000 strict)).0
unfolding us_per_second
record_failure-locks_example =
    record_failure-locks strict "10.0.0.1" 3_000_000 4_000_000 (omega arith) (omega arith)

-- a limiter that starts
abbrev new : Limiter
new = record strict { max_keys = 4; failures = []; locked_until = [] }

abbrev day : List Call
day =
    Call.fail "10.0.0.1" 1_000_000
    ∷ Call.fail "10.0.0.1" 2_000_000
    ∷ Call.ask "10.0.0.1" 3_000_000
    ∷ Call.forgive "10.0.0.1"
    ∷ []

answers_lem_example : answers new day ≡ promised new (λ _. clean) day
answers_lem_example =
    answers_lem new day refl refl (omega arith, (omega arith, (omega arith, tt))) (omega arith)

retry_after-waits_example :
    ((retry_after "10.0.0.3"
        (3_000_000 + (retry_after "10.0.0.3" 3_000_000 strict).0 * us_per_second)
        (retry_after "10.0.0.3" 3_000_000 strict).1).0
      ≡ 0)
    × (lookup "10.0.0.3"
          (retry_after "10.0.0.3"
            (3_000_000 + (retry_after "10.0.0.3" 3_000_000 strict).0 * us_per_second)
            (retry_after "10.0.0.3" 3_000_000 strict).1).1.locked_until
        ≡ none)
retry_after-waits_example = retry_after-waits strict "10.0.0.3" (refl, tt) 3_000_000

tracked_keys-bounded_example : tracked_keys (after new day) ≤ 4
unfolding tracked_keys
tracked_keys-bounded_example = tracked_keys-bounded new day refl (omega arith)
