-- ===== src/Service/Status/Windows.antt =====
-- The state of a device, told from its window alone: what the floor to whole days amounts to.
use licensing_master.Base.{ℕ, ◌+◌, ◌*◌, ◌≡◌, Option, arith, leb, if◌then◌else◌}
use licensing_master.Tables.{Subscription, Device}
use licensing_master.Exec.{Env}
use licensing_master.Service.Activation.{us_per_day}
use licensing_master.Service.Status.{
  State, device_state, state_of_days, days_remaining, floor_days, grace_of,
}

-- The state by plain comparisons of times.
abbrev pub window_state : ℕ → ℕ → ℕ → State
window_state valid_until grace_days at =
    if leb at valid_until
    then State.active
    else if leb at (valid_until + grace_days * us_per_day)
    then State.grace
    else State.expired

days_state :
    (valid_until grace_days at : ℕ)
    → state_of_days (floor_days valid_until at) grace_days ≡ window_state valid_until grace_days at
unfolding state_of_days floor_days us_per_day
days_state valid_until grace_days at = ground arith

-- A device that is not revoked is active up to and at the end of its window, in grace up to and at
-- the end of its grace days, and expired afterwards.
pub device_state-window_state :
    (env : Env) (dev : Device) (sub : Option Subscription) (at : ℕ)
    → device_state env dev sub at ≡ (
        if dev.is_revoked
        then State.revoked
        else window_state dev.valid_until (grace_of env sub) at)
unfolding device_state days_remaining
device_state-window_state env dev sub at =
    ground (arith, days_state dev.valid_until (grace_of env sub) at)
