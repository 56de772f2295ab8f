-- ===== src/Service/Ownership/Deletion.antt =====
-- `admin_delete_tenant` of licensing-master/src/service.py: the devices that go were booked on tokens that go.
use licensing_master.Base.{
  ℕ, ◌≡◌, refl, ◌==◌, nat_eq, string_eq, Bool, true, false, ◌&&◌, some, is_some, List, [], ◌∷◌,
  arith, Bool-cases, inl, inr, Option-cases,
}
use licensing_master.Base.Rows.{first, delete, All, All-map, All-delete, All-zip}
use licensing_master.Base.Deleted.{All-kept, count-delete_off, All-swap}
use licensing_master.Base.Keys.{Unique-delete}
use licensing_master.Tables.{Subscription, BatchToken, Device, Db}
use licensing_master.Service.Lifecycle.{cascade, owns_subscription}
use licensing_master.Service.Accounting.{IsAccounted, TokenAccounted, booked, is_booked, is_via}
use licensing_master.Service.Ownership.{IsOwned, IsOwn, HasOwner, owner}

module _ (k id : ℕ) where
  abbrev gone : List Subscription → Bool
  gone subs =
      is_some (first (λ (s : Subscription). s.tenant_id == k && s.subscription_id == id) subs)

  gone-owner : (subs : List Subscription) → owner id subs ≡ some k → gone subs ≡ true
  gone-owner [] h = cc
  gone-owner (s ∷ subs) h = elim (Bool-cases (s.subscription_id == id)) [
    | inl on ↦ let mine : s.tenant_id ≡ k = ground arith in ground arith
    | inr off ↦
        let later : owner id subs ≡ some k = rw off at h in ground (arith, gone-owner subs later)
  ]

  owner-delete :
      (j : ℕ) (subs : List Subscription)
      → owner id subs ≡ some j
      → (j == k) ≡ false
      → owner id (delete (λ (s : Subscription). s.tenant_id == k) subs) ≡ some j
  owner-delete j [] h apart = h
  owner-delete j (s ∷ subs) h apart = elim (Bool-cases (s.subscription_id == id)) [
    | inl on ↦
        let mine : s.tenant_id ≡ j = ground arith in
        let stays : (s.tenant_id == k) ≡ false = rw mine apart in rw (stays, on) (ground arith)
    | inr off ↦
        let later : owner id subs ≡ some j = rw off at h in
        elim (Bool-cases (s.tenant_id == k)) [
          | inl out ↦ rw out (owner-delete j subs later apart)
          | inr stays ↦ rw (stays, off) (owner-delete j subs later apart)
        ]
  ]

module _ (k : ℕ) (db : Db) (a : IsAccounted db) (o : IsOwned db) where
  abbrev subs : List Subscription
  subs = db.subscriptions

  abbrev is_gone : BatchToken → Bool
  is_gone b = owns_subscription k db b.subscription_id

  -- an owner that is not the tenant stays
  other_owner :
      (b : BatchToken) (j : ℕ)
      → is_gone b ≡ false
      → owner b.subscription_id subs ≡ some j
      → owner b.subscription_id (delete (λ (s : Subscription). s.tenant_id == k) subs) ≡ some j
  other_owner b j stays of = elim (Bool-cases (j == k)) [
    | inl same ↦
        let e : j ≡ k = ground arith in
        let out = gone-owner k b.subscription_id subs (rw e at of) in absurd (ground arith)
    | inr apart ↦ owner-delete k b.subscription_id j subs of apart
  ]

  cascade-HasOwner :
      (b : BatchToken)
      → HasOwner subs b
      → is_gone b ≡ false
      → HasOwner (delete (λ (s : Subscription). s.tenant_id == k) subs) b
  cascade-HasOwner b has stays = elim (Option-cases (owner b.subscription_id subs)) [
    | inl none_ ↦ absurd (ground arith)
    | inr (j, of) ↦ rw (other_owner b j stays of) refl
  ]

  pub cascade-IsOwned : IsOwned (cascade k db)
  unfolding cascade
  cascade-IsOwned = record {
    subs_unique = Unique-delete (λ (s : Subscription). s.subscription_id) _ subs o.subs_unique;
    subs_below = All-delete _ _ subs o.subs_below;
    tokens_owned =
        All-map (λ b. HasOwner subs b × (is_gone b ≡ false)) _ _
          (λ b (has, stays). cascade-HasOwner b has stays)
          (All-kept (HasOwner subs) is_gone db.batch_tokens o.tokens_owned);
    vias_known = All-delete _ _ db.device_activations o.vias_known;
    devices_owned =
        All-map (λ (d : Device). IsOwn subs db.batch_tokens d.tenant_id d.activated_via) _ _
          (λ d q.
            All-map _ _ (delete is_gone db.batch_tokens)
              (λ b (r, stays) on. other_owner b d.tenant_id stays (r on))
              (All-kept _ is_gone db.batch_tokens q))
          (All-delete _ _ db.device_activations o.devices_owned);
  }

  -- no device that goes is booked on a token that stays
  booked-kept :
      (b : BatchToken)
      → All
          (λ (d : Device).
            is_via b.batch_token_id d.activated_via ≡ true
            → owner b.subscription_id subs ≡ some d.tenant_id)
          db.device_activations
      → is_gone b ≡ false
      → booked b.batch_token_id (delete (λ (d : Device). d.tenant_id == k) db.device_activations)
        ≡ booked b.batch_token_id db.device_activations
  unfolding booked
  booked-kept b owns stays =
      count-delete_off (is_booked b.batch_token_id) (λ (d : Device). d.tenant_id == k)
        db.device_activations
        (All-map _ _ db.device_activations
          (λ d q mine. elim (Bool-cases (is_via b.batch_token_id d.activated_via)) [
            | inl on ↦
                let e : d.tenant_id ≡ k = ground arith in
                let out = gone-owner k b.subscription_id subs (rw e at (q on)) in
                absurd (ground arith)
            | inr off ↦ rw off (ground arith)
          ])
          owns)

  pub cascade-IsAccounted : IsAccounted (cascade k db)
  unfolding cascade
  cascade-IsAccounted = record {
    tokens_unique =
        Unique-delete (λ (b : BatchToken). b.batch_token_id) _ db.batch_tokens a.tokens_unique;
    devices_unique =
        Unique-delete (λ (d : Device). d.hardware_uuid) _ db.device_activations a.devices_unique;
    tokens_accounted =
        All-map _
          (TokenAccounted (delete (λ (d : Device). d.tenant_id == k) db.device_activations)
            db.serial)
          _
          (λ b ((t, owns), stays). record {
            counted = rw (booked-kept b owns stays) t.counted;
            bounded = t.bounded;
            positive = t.positive;
            below = t.below;
          })
          (All-kept _ is_gone db.batch_tokens (
            All-zip (TokenAccounted db.device_activations db.serial) _ db.batch_tokens
              a.tokens_accounted
              (All-swap
                (λ (d : Device) (b : BatchToken).
                  is_via b.batch_token_id d.activated_via ≡ true
                  → owner b.subscription_id subs ≡ some d.tenant_id)
                db.device_activations db.batch_tokens o.devices_owned)));
    devices_known = All-delete _ _ db.device_activations a.devices_known;
    serial_positive = a.serial_positive;
  }
