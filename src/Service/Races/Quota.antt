-- ===== src/Service/Races/Quota.antt =====
-- No schedule of activations of new devices breaks the accounting of seats or a quota.
use licensing_master.Base.{
  ℕ, ◌≡◌, ◌≢◌, refl, ap, sym, ◌∙◌, ◌==◌, nat_eq, nat_beq_iff, string_eq, none, some, List,
  Bool-cases, inl, inr, arith,
}
use licensing_master.Base.Rows.{
  first, count, update, All-first, first_of_count, first-sat, count-update_same,
}
use licensing_master.Tables.{BatchToken, Device, Db}
use licensing_master.Exec.{Env}
use licensing_master.Service.Seats.{has_room, take_seat}
use licensing_master.Service.Activation.{booked_row}
use licensing_master.Service.Accounting.{IsAccounted, Accounted, TokenAccounted, IsKnown}
use licensing_master.Service.Accounting.Steps.{Accounted-book_new}
use licensing_master.Service.Races.{
  Job, Pc, System, set_pc, row_of, write, Step, check, take, commit, refuse, Reach, here, later,
  look, overwrite,
}

room_elsewhere :
    (a b : ℕ) (ts : List BatchToken)
    → a ≢ b
    → count (has_room b) (update (has_room a) take_seat ts) ≡ count (has_room b) ts
room_elsewhere a b ts apart =
    count-update_same (has_room b) (has_room a) take_seat ts (λ t on. ground (arith, apart))

IsKnown-of_room :
    (k : ℕ) (ts : List BatchToken) (ds : List Device) (s : ℕ)
    → Accounted ts ds s
    → count (has_room k) ts ≢ 0
    → IsKnown s (some k)
IsKnown-of_room k ts ds s h room =
    let (t, found) = first_of_count (has_room k) ts room in
    let known = All-first (TokenAccounted ds s) (has_room k) ts h.tokens_accounted found in
    let on = first-sat (has_room k) ts found in
    let known' : IsKnown s (some t.batch_token_id) = (known.positive, known.below) in
    let same : t.batch_token_id ≡ k = ground arith in rw same at known'

module _ (env : Env) (jobs : ℕ → Job) where
  abbrev token_of : ℕ → ℕ
  token_of i = (jobs i).tok.batch_token_id

  -- The accounting holds of what is committed; a call that holds a token's row still has a seat to take,
  -- and no other call holds that row.
  record Inv (s : System) : Type 0 where
    accounted : IsAccounted s.db
    held : (i : ℕ) → s.pc i ≡ Pc.holding → count (has_room (token_of i)) s.db.batch_tokens ≢ 0
    exclusive :
        (i j : ℕ) → s.pc i ≡ Pc.holding → s.pc j ≡ Pc.holding → token_of i ≡ token_of j → i ≡ j

  -- a call that holds a row after another has moved to a place without one held it before
  held_before :
      (pc : ℕ → Pc) (i j : ℕ) (p : Pc)
      → p ≢ Pc.holding
      → set_pc i p pc j ≡ Pc.holding
      → (pc j ≡ Pc.holding) × (i ≢ j)
  held_before pc i j p other h = elim (Bool-cases (i == j)) [
    | inl same ↦ absurd (other (rw same at h))
    | inr apart ↦ (rw apart at h, λ e. ground arith)
  ]

  move-Inv :
      (s : System) (i : ℕ) (p : Pc)
      → p ≢ Pc.holding
      → Inv s
      → Inv (record s { pc = set_pc i p s.pc })
  move-Inv s i p other v = record {
    accounted = v.accounted;
    held = λ j h. v.held j (held_before s.pc i j p other h).0;
    exclusive = λ j k hj hk e.
        v.exclusive j k (held_before s.pc i j p other hj).0 (held_before s.pc i k p other hk).0 e;
  }

  take-Inv :
      (s : System) (i : ℕ)
      → count (has_room (token_of i)) s.db.batch_tokens ≢ 0
      → ((j : ℕ) → s.pc j ≡ Pc.holding → token_of j ≢ token_of i)
      → Inv s
      → Inv (record s { pc = set_pc i Pc.holding s.pc })
  take-Inv s i room alone v = record {
    accounted = v.accounted;
    held = λ j h. elim (Bool-cases (i == j)) [
      | inl same ↦ let e : i ≡ j = (nat_beq_iff i j).0 same in rw e at room
      | inr apart ↦ v.held j (rw apart at h)
    ];
    exclusive = λ j k hj hk e. elim (Bool-cases (i == j)) [
      | inl j_same ↦ elim (Bool-cases (i == k)) [
        | inl k_same ↦ sym ((nat_beq_iff i j).0 j_same) ∙ (nat_beq_iff i k).0 k_same
        | inr k_apart ↦
            absurd
              (alone k (rw k_apart at hk) (sym e ∙ sym (ap token_of ((nat_beq_iff i j).0 j_same))))
      ]
      | inr j_apart ↦ elim (Bool-cases (i == k)) [
        | inl k_same ↦
            absurd (alone j (rw j_apart at hj) (e ∙ sym (ap token_of ((nat_beq_iff i k).0 k_same))))
        | inr k_apart ↦ v.exclusive j k (rw j_apart at hj) (rw k_apart at hk) e
      ]
    ];
  }

  commit-Inv :
      (s : System) (i : ℕ)
      → s.pc i ≡ Pc.holding
      → first (λ (d : Device). d.hardware_uuid == (jobs i).hardware_uuid) s.db.device_activations
        ≡ none
      → Inv s
      → Inv (record { db = write env (jobs i) s.db; pc = set_pc i Pc.done s.pc })
  unfolding booked_row
  commit-Inv s i holds absent v = record {
    accounted =
        Accounted-book_new s.db.batch_tokens s.db.device_activations s.db.serial v.accounted
          (token_of i) (row_of env (jobs i) s.db.serial) (v.held i holds)
          (IsKnown-of_room (token_of i) s.db.batch_tokens s.db.device_activations s.db.serial
            v.accounted (v.held i holds))
          absent refl refl;
    held = λ j h.
        let (before, apart) = held_before s.pc i j Pc.done (λ e. cc) h in
        let others : token_of i ≢ token_of j = λ e. apart (v.exclusive i j holds before e) in
        rw (room_elsewhere (token_of i) (token_of j) s.db.batch_tokens others) (v.held j before);
    exclusive = λ j k hj hk e.
        v.exclusive j k (held_before s.pc i j Pc.done (λ e. cc) hj).0
          (held_before s.pc i k Pc.done (λ e. cc) hk).0 e;
  }

  Step-Inv :
      ((i : ℕ) → (jobs i).existing ≡ none) → {s t : System} → Step env jobs s t → Inv s → Inv t
  Step-Inv new {s} (look i at found gone) v = move-Inv s i Pc.looked (λ e. cc) v
  Step-Inv new {s} (overwrite i holds old known there) v = let fresh = new i in absurd (cc)
  Step-Inv new {s} (check i at few) v = move-Inv s i Pc.checked (λ e. cc) v
  Step-Inv new {s} (take i at room alone) v = take-Inv s i room alone v
  Step-Inv new {s} (commit i holds fresh absent) v = commit-Inv s i holds absent v
  Step-Inv new {s} (refuse i open_) v = move-Inv s i Pc.failed (λ e. cc) v

  Reach-Inv :
      ((i : ℕ) → (jobs i).existing ≡ none)
      → {db : Db} {s : System} → IsAccounted db
      → Reach env jobs db s
      → Inv s
  Reach-Inv new h here = record {
    accounted = h;
    held = λ i e. absurd (cc);
    exclusive = λ i j e f g. absurd (cc);
  }
  Reach-Inv new h (later r st) = Step-Inv new st (Reach-Inv new h r)

  -- Whatever the schedule of activations of devices that have no row, at the same time and on one batch
  -- token or several, what is committed has every batch token count the live devices booked against it,
  -- within its quota.
  pub Reach-IsAccounted :
      ((i : ℕ) → (jobs i).existing ≡ none)
      → {db : Db} {s : System} → IsAccounted db
      → Reach env jobs db s
      → IsAccounted s.db
  Reach-IsAccounted new h r = let v = Reach-Inv new h r in v.accounted
