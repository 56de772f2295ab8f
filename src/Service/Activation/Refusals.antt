-- ===== src/Service/Activation/Refusals.antt =====
-- When licensing-master/src/service.py refuses an activation, and what a token must be.
use licensing_master.Base.{
  ℕ, ◌≤◌, ◌<◌, ◌≡◌, refl, String, ◌==◌, nat_eq, string_eq, true, false, Option, none, some, arith,
  ◌⊎◌, inl, inr, ◌↔◌, ltb,
}
use licensing_master.Base.Rows.{first, count}
use licensing_master.Tables.{Subscription, BatchToken, Device}
use licensing_master.Exec.{Env, World, err, transaction, seat_limit_reached}
use licensing_master.Exec.Succeeds.{
  Fails, Fails-then, Fails-first, Fails-if_true, transaction-Fails,
}
use licensing_master.Service.Rows.{TenantRow, find_device}
use licensing_master.Service.Seats.{is_live_of, has_room}
use licensing_master.Service.Seats.Outcomes.{
  ensure_tenant_seat-ok, ensure_tenant_seat-err, consume_seat-err,
}
use licensing_master.Service.Activation.{
  ActivationBody, book, activate_existing, do_activate, token_ok,
}
use licensing_master.Service.Activation.Outcomes.{required-ok}

module _ (env : Env) (t : TenantRow) (sub : Subscription) (tok : BatchToken) (body : ActivationBody)
    (hw : String) (at : ℕ) (w : World) (has_uuid : body.hardware_uuid ≡ some hw)
    (gone : (d : Device)
      → first (λ (d : Device). d.hardware_uuid == hw) w.device_activations ≡ some d
      → d.is_revoked ≡ true)
    (full : (sub.seat_limit ≤ count (is_live_of t.tenant_id) w.device_activations)
      ⊎ (count (has_room tok.batch_token_id) w.batch_tokens ≡ 0)) where
  book-full :
      (existing : Option Device)
      → Fails seat_limit_reached (book env t sub tok body hw existing at w)
  unfolding book
  book-full existing =
      elim (ltb-cases (count (is_live_of t.tenant_id) w.device_activations) sub.seat_limit) [
        | inl free ↦
            Fails-then _ _ w _ (ensure_tenant_seat-ok t.tenant_id sub w free)
              (Fails-first _ _ w _ (consume_seat-err tok w (ground arith)))
        | inr none_left ↦ Fails-first _ _ w _ (ensure_tenant_seat-err t.tenant_id sub w none_left)
      ]
    where
      ltb-cases : (a b : ℕ) → (a < b) ⊎ (b ≤ a)
      ltb-cases a b = ground arith

  -- A device that would need a seat is refused where the tenant's live devices have reached the seat
  -- limit or the token's row has none left, and nothing is written.
  pub do_activate-full :
      ((transaction (do_activate env t sub tok body at) w).0 ≡ err seat_limit_reached)
      × ((transaction (do_activate env t sub tok body at) w).1.db ≡ w.db)
  unfolding do_activate find_device activate_existing
  do_activate-full =
      transaction-Fails seat_limit_reached (do_activate env t sub tok body at) w
        (Fails-then _ _ w _ (required-ok w has_uuid) (Fails-then _ _ w _ refl (split _ refl)))
    where
      split :
          (existing : Option Device)
          → first (λ (d : Device). d.hardware_uuid == hw) w.device_activations ≡ existing
          → Fails seat_limit_reached (activate_existing env t sub tok body hw at existing w)
      split none found = book-full none
      split (some d) found =
          Fails-if_true seat_limit_reached d.is_revoked _ _ w (gone d found) (book-full (some d))

unexpired_lem :
    (at : ℕ) (o : Option ℕ)
    → ((elim o [ none ↦ true | some end ↦ ltb at end ]) ≡ true)
      ↔ ((o ≡ none) ⊎ ((end : ℕ) × (o ≡ some end) × (at < end)))
unexpired_lem at none = ((λ _. inl refl), λ _. refl)
unexpired_lem at (some end) = (
  (λ h. inr (end, refl, ground arith)),
  λ e. elim e [ inl e ↦ absurd (cc) | inr (end', same, later) ↦ ground arith ],
)

-- A token may be used for a subscription exactly when its row is there, is not revoked, belongs to the
-- subscription and has no expiry that has been reached.
token_ok_lem :
    (tok : BatchToken) (subscription_id at : ℕ)
    → (token_ok (some tok) subscription_id at ≡ true) ↔ (
        (tok.is_revoked ≡ false)
        × (tok.subscription_id ≡ subscription_id)
        × ((tok.expires_at ≡ none) ⊎ ((end : ℕ) × (tok.expires_at ≡ some end) × (at < end))))
unfolding token_ok
token_ok_lem tok subscription_id at =
    let (fits, back) = unexpired_lem at tok.expires_at in
    (
      (λ h. (ground arith, ground arith, fits (ground arith))),
      λ (live, own, e). let e' = back e in ground arith,
    )
