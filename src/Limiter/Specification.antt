-- ===== src/Limiter/Specification.antt =====
-- What the limiter of licensing-master/src/ratelimit.py promises, key by key, with no dictionary and no
-- bound on the keys: a key's failures since it was last cleared, all of them, and the end of its lockout.
-- The failures in the window are counted when one is recorded.
use licensing_master.Base.{
  ℕ, ◌+◌, ◌-◌, ◌*◌, ◌≤◌, String, ◌==◌, string_eq, Option, none, some, List, [], ◌∷◌, ◌++◌, leb,
  if◌then◌else◌,
}
use licensing_master.Limiter.{
  Limiter, us_per_second, ceil_seconds, length, retry_after, record_failure, clear,
}
use licensing_master.Limiter.Windows.{recent}

-- A call of the limiter, with the time on its clock.
pub data Call : Type 0 where
  fail : String → ℕ → Call
  ask : String → ℕ → Call
  forgive : String → Call

-- the clock does not run backwards, from `now` on
abbrev pub IsInOrder : ℕ → List Call → Type 0
IsInOrder now [] = Unit
IsInOrder now (Call.fail _ at ∷ calls) = (now ≤ at) × IsInOrder at calls
IsInOrder now (Call.ask _ at ∷ calls) = (now ≤ at) × IsInOrder at calls
IsInOrder now (Call.forgive _ ∷ calls) = IsInOrder now calls

-- the answers of the limiter of the code: the seconds to wait, for each question
unfoldable pub answers : Limiter → List Call → List ℕ
answers l [] = []
answers l (Call.fail key at ∷ calls) = answers (record_failure key at l) calls
answers l (Call.ask key at ∷ calls) =
    (retry_after key at l).0 ∷ answers (retry_after key at l).1 calls
answers l (Call.forgive key ∷ calls) = answers (clear key l) calls

pub record Account : Type 0 where
  pub failures : List ℕ
  pub until : Option ℕ

abbrev pub clean : Account
clean = record { failures = []; until = none }

abbrev pub Accounts : Type 0
Accounts = String → Account

abbrev pub set_account : String → Account → Accounts → Accounts
set_account key a s k = if key == k then a else s k

-- the thresholds are those of `l`
module _ (l : Limiter) where
  -- one more failure; enough of them in the window lock the key out
  abbrev pub failed : ℕ → Account → Account
  failed at a = record {
    failures = a.failures ++ at ∷ [];
    until =
        if leb l.max_failures (length (recent l at (a.failures ++ at ∷ [])))
        then some (at + l.lockout_seconds * us_per_second)
        else a.until;
  }

  -- the seconds to wait, and the account after the question: a lockout that is over is forgotten with
  -- the failures
  abbrev pub asked_until : ℕ → Account → Option ℕ → ℕ × Account
  asked_until at a none = (0, a)
  asked_until at a (some until) =
      if leb until at then (0, clean) else (ceil_seconds (until - at), a)

  abbrev pub asked : ℕ → Account → ℕ × Account
  asked at a = asked_until at a a.until

  -- the answers that are promised
  unfoldable pub promised : Accounts → List Call → List ℕ
  promised s [] = []
  promised s (Call.fail key at ∷ calls) = promised (set_account key (failed at (s key)) s) calls
  promised s (Call.ask key at ∷ calls) =
      (asked at (s key)).0 ∷ promised (set_account key (asked at (s key)).1 s) calls
  promised s (Call.forgive key ∷ calls) = promised (set_account key clean s) calls
