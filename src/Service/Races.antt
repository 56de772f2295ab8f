-- ===== src/Service/Races.antt =====
-- Activations of new and of revoked devices that run at the same time, in licensing-master/src/service.py on PostgreSQL's
-- READ COMMITTED: what a transaction has written is seen when it has committed, and the conditional
-- UPDATE of a batch token holds the token's row until then.
pub mod Alone
pub mod Quota
pub mod Rebookings
pub mod SeatLimit
use licensing_master.Base.{
  ℕ, suc, ◌≡◌, ◌≢◌, String, ◌==◌, nat_eq, string_eq, Option, none, List, [], ◌∷◌, ◌++◌, leb, false,
  if◌then◌else◌, some, true,
}
use licensing_master.Base.Rows.{first, count, update}
use licensing_master.Tables.{Subscription, BatchToken, Device, Db}
use licensing_master.Exec.{Env}
use licensing_master.Service.Rows.{TenantRow}
use licensing_master.Service.Seats.{has_room, take_seat, is_live_of}
use licensing_master.Service.Activation.{booked_row, new_device}

-- One call of `_do_activate` that books, with what it reads and draws: `existing` is the device's row, none or
-- a revoked one.
pub record Job : Type 0 where
  pub tenant : TenantRow
  pub sub : Subscription
  pub tok : BatchToken
  pub hardware_uuid : String
  pub existing : Option Device
  pub device_name : String
  pub branch_ref : Option String
  pub license_key : String
  pub now : ℕ

-- Where the call stands: before it reads the device's row, before `_ensure_tenant_seat`, before
-- `_consume_seat`, with the token's row held, after the commit, or rolled back.
pub data Pc : Type 0 where
  start looked checked holding done failed : Pc

pub record System : Type 0 where
  pub db : Db
  pub pc : ℕ → Pc

abbrev pub set_pc : ℕ → Pc → (ℕ → Pc) → ℕ → Pc
set_pc i p pc j = if i == j then p else pc j

-- the row that the call inserts
abbrev pub row_of : Env → Job → ℕ → Device
row_of env job serial =
    booked_row env job.tenant job.sub job.tok job.device_name job.branch_ref job.license_key job.now
      (new_device env serial job.hardware_uuid)

-- what the commit makes visible
abbrev pub write : Env → Job → Db → Db
write env job db = record db {
  batch_tokens = update (has_room job.tok.batch_token_id) take_seat db.batch_tokens;
  device_activations = db.device_activations ++ row_of env job db.serial ∷ [];
  serial = suc db.serial;
}

-- the row of a revoked device after the call's UPDATE
abbrev pub old_row_of : Env → Job → Device → Device
old_row_of env job d =
    record (booked_row env job.tenant job.sub job.tok job.device_name job.branch_ref job.license_key
      job.now d) { is_revoked = false; last_seen_at = some job.now }

-- what the commit of a call that has read a revoked row makes visible: the UPDATE does not look at
-- `is_revoked` again
abbrev pub write_over : Env → Job → Db → Db
write_over env job db = record db {
  batch_tokens = update (has_room job.tok.batch_token_id) take_seat db.batch_tokens;
  device_activations =
      update (λ d. d.hardware_uuid == job.hardware_uuid) (old_row_of env job) db.device_activations;
}

-- a device that a call may book: it has no row or a revoked one
abbrev pub IsUnbooked : Option Device → Type 0
IsUnbooked none = Unit
IsUnbooked (some d) = d.is_revoked ≡ true

-- One step of one call. Any call that has not committed may be refused or fail, and is rolled back.
pub data Step (env : Env) (jobs : ℕ → Job) (s : System) : System → Type 0 where
  look :
      (i : ℕ)
      → s.pc i ≡ Pc.start
      → first (λ (d : Device). d.hardware_uuid == (jobs i).hardware_uuid) s.db.device_activations
        ≡ (jobs i).existing
      → IsUnbooked (jobs i).existing
      → Step env jobs s (record s { pc = set_pc i Pc.looked s.pc })
  check :
      (i : ℕ)
      → s.pc i ≡ Pc.looked
      → leb
          (jobs i).sub.seat_limit
          (count (is_live_of (jobs i).tenant.tenant_id) s.db.device_activations)
        ≡ false
      → Step env jobs s (record s { pc = set_pc i Pc.checked s.pc })
  take :
      (i : ℕ)
      → s.pc i ≡ Pc.checked
      → count (has_room (jobs i).tok.batch_token_id) s.db.batch_tokens ≢ 0
      → ((j : ℕ) → s.pc j ≡ Pc.holding → (jobs j).tok.batch_token_id ≢ (jobs i).tok.batch_token_id)
      → Step env jobs s (record s { pc = set_pc i Pc.holding s.pc })
  commit :
      (i : ℕ)
      → s.pc i ≡ Pc.holding
      → (jobs i).existing ≡ none
      → first (λ (d : Device). d.hardware_uuid == (jobs i).hardware_uuid) s.db.device_activations
        ≡ none
      → Step env jobs s (record { db = write env (jobs i) s.db; pc = set_pc i Pc.done s.pc })
  overwrite :
      (i : ℕ)
      → s.pc i ≡ Pc.holding
      → (old : Device) → (jobs i).existing ≡ some old
      → first (λ (d : Device). d.hardware_uuid == (jobs i).hardware_uuid) s.db.device_activations
        ≢ none
      → Step env jobs s (record { db = write_over env (jobs i) s.db; pc = set_pc i Pc.done s.pc })
  refuse : (i : ℕ) → s.pc i ≢ Pc.done → Step env jobs s (record s { pc = set_pc i Pc.failed s.pc })

-- every call at its start
abbrev pub opening : Db → System
opening db = record { db = db; pc = λ _. Pc.start }

pub data Reach (env : Env) (jobs : ℕ → Job) (db : Db) : System → Type 0 where
  here : Reach env jobs db (opening db)
  later : {s t : System} → Reach env jobs db s → Step env jobs s t → Reach env jobs db t
