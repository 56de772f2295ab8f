-- ===== src/Service/Races/SeatLimit.antt =====
-- The seat limit of a tenant is checked before a seat is taken, and nothing holds it in between.
use licensing_master.Base.{
  ℕ, suc, ◌≡◌, ◌≢◌, refl, ap, ◌∙◌, ◌==◌, nat_eq, string_eq, ==_refl, Bool, false, none, List, [],
  ◌∷◌, ◌++◌, leb, arith, sym,
}
use licensing_master.Base.Rows.{first, count, update, count-append}
use licensing_master.Tables.{Device, Db}
use licensing_master.Exec.{Env}
use licensing_master.Service.Seats.{has_room, take_seat, is_live_of}
use licensing_master.Service.Activation.{booked_row}
use licensing_master.Service.Races.{
  Job, Pc, System, set_pc, row_of, write, check, take, commit, Reach, here, later, look,
}

first-append_none :
    (p : Device → Bool) (xs : List Device) (y : Device)
    → first p xs ≡ none
    → p y ≡ false
    → first p (xs ++ y ∷ []) ≡ none
first-append_none p [] y h off = rw off refl
first-append_none p (x ∷ xs) y h off = ground (arith, first-append_none p xs y)

-- the live devices of a tenant
abbrev pub live : ℕ → Db → ℕ
live k d = count (is_live_of k) d.device_activations

module _ (env : Env) (jobs : ℕ → Job) (k : ℕ) (db : Db) where
  live-write :
      (i : ℕ) (d : Db)
      → (jobs i).tenant.tenant_id ≡ k
      → live k (write env (jobs i) d) ≡ suc (live k d)
  unfolding booked_row
  live-write i d own =
      count-append (is_live_of k) d.device_activations (row_of env (jobs i) d.serial ∷ [])
      ∙ rw (own, ==_refl k) (omega arith)

  -- Two calls of one tenant, for two new devices, with one seat left under the limit and two under the
  -- quotas: both may pass the check before either has committed, and then both book. The tenant has one
  -- live device more than its seat limit.
  pub live-exceeded :
      (limit : ℕ)
      → (jobs 0).existing ≡ none
      → (jobs 1).existing ≡ none
      → (jobs 0).tenant.tenant_id ≡ k
      → (jobs 1).tenant.tenant_id ≡ k
      → (jobs 0).sub.seat_limit ≡ limit
      → (jobs 1).sub.seat_limit ≡ limit
      → suc (live k db) ≡ limit
      → count (has_room (jobs 0).tok.batch_token_id) db.batch_tokens ≢ 0
      → count
          (has_room (jobs 1).tok.batch_token_id)
          (update (has_room (jobs 0).tok.batch_token_id) take_seat db.batch_tokens)
        ≢ 0
      → first (λ (d : Device). d.hardware_uuid == (jobs 0).hardware_uuid) db.device_activations
        ≡ none
      → first (λ (d : Device). d.hardware_uuid == (jobs 1).hardware_uuid) db.device_activations
        ≡ none
      → ((jobs 0).hardware_uuid == (jobs 1).hardware_uuid) ≡ false
      → (s : System) × Reach env jobs db s × (live k s.db ≡ suc limit)
  live-exceeded limit none0 none1 own0 own1 limit0 limit1 last room0 room1 new0 new1 apart = (
    record { db = write env (jobs 1) first_db; pc = _ },
    later
        (later
          (later
            (later
              (later
                (later
                  (later (later here (look 0 refl (new0 ∙ sym none0) (rw none0 tt)))
                    (look 1 refl (new1 ∙ sym none1) (rw none1 tt)))
                  (check 0 refl (passes 0 own0 limit0)))
                (check 1 refl (passes 1 own1 limit1)))
              (take 0 refl room0 (λ j h. absurd (nobody j h))))
            (commit 0 refl none0 new0))
          (take 1 refl room1 (λ j h. absurd (released j h))))
        (commit 1 refl none1 new1'),
    live-write 1 first_db own1 ∙ ap suc (live-write 0 db own0) ∙ ap suc last,
  )
    where
      first_db : Db
      first_db = write env (jobs 0) db

      passes :
          (i : ℕ)
          → (jobs i).tenant.tenant_id ≡ k
          → (jobs i).sub.seat_limit ≡ limit
          → leb
              (jobs i).sub.seat_limit
              (count (is_live_of (jobs i).tenant.tenant_id) db.device_activations)
            ≡ false
      passes i own lim = rw (own, lim, ← last) (ground arith)

      nobody :
          (j : ℕ)
          → set_pc 1 Pc.checked
              (set_pc 0 Pc.checked (set_pc 1 Pc.looked (set_pc 0 Pc.looked (λ _. Pc.start))))
              j
            ≡ Pc.holding
          → ⊥
      nobody j h = ground arith

      released :
          (j : ℕ)
          → set_pc 0 Pc.done
              (set_pc 0 Pc.holding (
                set_pc 1 Pc.checked
                  (set_pc 0 Pc.checked (set_pc 1 Pc.looked (set_pc 0 Pc.looked (λ _. Pc.start))))))
              j
            ≡ Pc.holding
          → ⊥
      released j h = ground arith

      new1' :
          first
            (λ (d : Device). d.hardware_uuid == (jobs 1).hardware_uuid)
            (db.device_activations ++ row_of env (jobs 0) db.serial ∷ [])
          ≡ none
      new1' =
          first-append_none (λ (d : Device). d.hardware_uuid == (jobs 1).hardware_uuid)
            db.device_activations (row_of env (jobs 0) db.serial) new1 (unfold booked_row in apart)
