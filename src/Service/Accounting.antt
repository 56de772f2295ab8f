-- ===== src/Service/Accounting.antt =====
-- The seat accounting of licensing-master/src/service.py as an invariant of two tables: what a
-- batch token has consumed is the number of live devices booked against it.
pub mod Steps
pub mod Revocations
pub mod Booking
pub mod Activation
pub mod Release
pub mod Devices
pub mod Reinstate
pub mod Tokens
use licensing_master.Base.{
  ℕ, ◌+◌, ◌≤◌, ◌<◌, ◌≡◌, ◌≢◌, refl, ap, ◌==◌, nat_eq, string_eq, nat_beq_iff, Bool, true, false,
  not, ◌&&◌, Option, none, some, List, [], ◌∷◌, ◌++◌, arith, inl, inr, Bool-cases, Option-cases,
}
use licensing_master.Base.Rows.{
  first, count, update, All, ind, All-update, All-map, All-zip, All-first, first-sat,
  first_of_count,
}
use licensing_master.Base.Keys.{Unique, All-sat, Unique-update}
use licensing_master.Tables.{BatchToken, Device, Db}
use licensing_master.Service.Seats.{has_room, has_seat, take_seat, give_seat}

abbrev pub is_via : ℕ → Option ℕ → Bool
is_via k none = false
is_via k (some j) = j == k

-- a live device that was booked against the token `k`
abbrev pub is_booked : ℕ → Device → Bool
is_booked k d = not d.is_revoked && is_via k d.activated_via

unfoldable pub booked : ℕ → List Device → ℕ
booked k ds = count (is_booked k) ds

-- a reference to a row that exists or existed
abbrev pub IsKnown : ℕ → Option ℕ → Type 0
IsKnown serial none = Unit
IsKnown serial (some j) = (0 < j) × (j < serial)

pub record TokenAccounted (ds : List Device) (serial : ℕ) (t : BatchToken) : Type 0 where
  pub counted : t.seats_consumed ≡ booked t.batch_token_id ds
  pub bounded : t.seats_consumed ≤ t.quota
  pub positive : 0 < t.batch_token_id
  pub below : t.batch_token_id < serial

pub record Accounted (ts : List BatchToken) (ds : List Device) (serial : ℕ) : Type 0 where
  pub tokens_unique : Unique (λ (t : BatchToken). t.batch_token_id) ts
  pub devices_unique : Unique (λ (d : Device). d.hardware_uuid) ds
  pub tokens_accounted : All (TokenAccounted ds serial) ts
  pub devices_known : All (λ (d : Device). IsKnown serial d.activated_via) ds
  pub serial_positive : 0 < serial

abbrev pub IsAccounted : Db → Type 0
IsAccounted db = Accounted db.batch_tokens db.device_activations db.serial
