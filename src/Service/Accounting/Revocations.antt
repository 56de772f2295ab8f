-- ===== src/Service/Accounting/Revocations.antt =====
-- What a revocation, and lifting it, does to the accounting of the two tables.
use licensing_master.Base.{
  ℕ, String, ◌+◌, ◌≡◌, ◌≢◌, refl, ◌==◌, nat_eq, string_eq, true, false, none, some, List, arith,
}
use licensing_master.Base.Rows.{
  first, count, update, All, ind, All-update, All-map, All-zip, first-sat,
}
use licensing_master.Base.Keys.{Unique, Unique-update, count-update, Absent-of_first}
use licensing_master.Tables.{BatchToken, Device}
use licensing_master.Service.Seats.{has_room, has_seat, take_seat, give_seat, is_live_at}
use licensing_master.Service.Accounting.{
  Accounted, TokenAccounted, IsKnown, booked, is_booked, is_via,
}
use licensing_master.Service.Accounting.Steps.{
  Accounted-take, Accounted-give, Accounted-same, revoke, at_uuid,
}

module _ (ts : List BatchToken) (ds : List Device) (s : ℕ) (h : Accounted ts ds s) where
  -- Revoking the live device of a uuid frees one seat of its token.
  module _ (hw : String) (d : Device) (found : first (is_live_at hw) ds ≡ some d) where
    revoke_count :
        (j : ℕ)
        → booked j (update (is_live_at hw) revoke ds) + ind (is_via j d.activated_via) ≡ booked j ds
    unfolding booked
    revoke_count j =
        let moved =
          count-update (λ (x : Device). x.hardware_uuid) (is_booked j) (is_live_at hw) revoke hw ds
            {r = d} (λ x on. ground arith) h.devices_unique found in
        let live = first-sat (is_live_at hw) ds found in ground arith

    revoke-Unique : Unique (λ (d : Device). d.hardware_uuid) (update (is_live_at hw) revoke ds)
    revoke-Unique =
        Unique-update (λ (d : Device). d.hardware_uuid) (is_live_at hw) revoke ds (λ _. refl)
          h.devices_unique

    revoke-IsKnown :
        All (λ (d : Device). IsKnown s d.activated_via) (update (is_live_at hw) revoke ds)
    revoke-IsKnown =
        All-update (λ (d : Device). IsKnown s d.activated_via)
          (λ (d : Device). IsKnown s d.activated_via) (is_live_at hw) revoke ds (λ x q _. q)
          (λ x q _. q) h.devices_known

    pub Accounted-revoke :
        (k : ℕ)
        → d.activated_via ≡ some k
        → Accounted (update (has_seat k) give_seat ts) (update (is_live_at hw) revoke ds) s
    Accounted-revoke k via =
        Accounted-give k ts ds (update (is_live_at hw) revoke ds) s h
          (λ j. rw via at (revoke_count j)) revoke-Unique revoke-IsKnown

    pub Accounted-revoke-none :
        d.activated_via ≡ none → Accounted ts (update (is_live_at hw) revoke ds) s
    Accounted-revoke-none via =
        Accounted-same ts ds (update (is_live_at hw) revoke ds) s s h (omega arith)
          (λ j. let c = revoke_count j in ground arith) revoke-Unique revoke-IsKnown

  -- Lifting the revocation of a uuid's device takes one seat of its token.
  module _ (hw : String) (f : Device → Device) (d : Device) (found : first (at_uuid hw) ds ≡ some d)
      (dead : d.is_revoked ≡ true) (same : (x : Device) → (f x).hardware_uuid ≡ x.hardware_uuid)
      (live : (x : Device) → (f x).is_revoked ≡ false)
      (via : (x : Device) → (f x).activated_via ≡ x.activated_via) where
    revive_count :
        (j : ℕ) → booked j (update (at_uuid hw) f ds) ≡ booked j ds + ind (is_via j d.activated_via)
    unfolding booked
    revive_count j =
        let moved =
          count-update (λ (x : Device). x.hardware_uuid) (is_booked j) (at_uuid hw) f hw ds {r = d}
            (λ x on. on) h.devices_unique found in
        ground (arith, live d, via d)

    revive-Unique : Unique (λ (d : Device). d.hardware_uuid) (update (at_uuid hw) f ds)
    revive-Unique =
        Unique-update (λ (d : Device). d.hardware_uuid) (at_uuid hw) f ds same h.devices_unique

    revive-IsKnown : All (λ (d : Device). IsKnown s d.activated_via) (update (at_uuid hw) f ds)
    revive-IsKnown =
        All-update (λ (d : Device). IsKnown s d.activated_via)
          (λ (d : Device). IsKnown s d.activated_via) (at_uuid hw) f ds (λ x q _. rw (via x) q)
          (λ x q _. q) h.devices_known

    pub Accounted-revive :
        (k : ℕ)
        → d.activated_via ≡ some k
        → count (has_room k) ts ≢ 0
        → Accounted (update (has_room k) take_seat ts) (update (at_uuid hw) f ds) s
    Accounted-revive k of_k room =
        Accounted-take k ts ds (update (at_uuid hw) f ds) s s h room (omega arith)
          (λ j. rw of_k at (revive_count j)) revive-Unique revive-IsKnown

    pub Accounted-revive_none : d.activated_via ≡ none → Accounted ts (update (at_uuid hw) f ds) s
    Accounted-revive_none of_none =
        Accounted-same ts ds (update (at_uuid hw) f ds) s s h (omega arith)
          (λ j. let c = revive_count j in ground arith) revive-Unique revive-IsKnown

    -- the token's row may be gone
    pub Accounted-revive_gone :
        (k : ℕ)
        → d.activated_via ≡ some k
        → first (λ (t : BatchToken). t.batch_token_id == k) ts ≡ none
        → Accounted ts (update (at_uuid hw) f ds) s
    Accounted-revive_gone k of_k gone = record {
      tokens_unique = h.tokens_unique;
      devices_unique = revive-Unique;
      tokens_accounted =
          All-map (λ t. TokenAccounted ds s t × ((t.batch_token_id == k) ≡ false))
            (TokenAccounted (update (at_uuid hw) f ds) s) ts
            (λ t p. let c = revive_count t.batch_token_id in ground arith)
            (All-zip (TokenAccounted ds s) (λ t. (t.batch_token_id == k) ≡ false) ts
              h.tokens_accounted
              (Absent-of_first (λ (t : BatchToken). t.batch_token_id) k ts gone));
      devices_known = revive-IsKnown;
      serial_positive = h.serial_positive;
    }
