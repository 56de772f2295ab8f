-- ===== src/Service/Ownership.antt =====
-- Who owns what in licensing-master/src/service.py: a batch token is of a subscription that is there, and a
-- device stands under the tenant whose subscription its token is of.
pub mod Bookings
pub mod Activation
pub mod UseCases
pub mod Deletion
pub mod Devices
use mathlib.Core.Option
use licensing_master.Base.{
  ℕ, suc, ◌<◌, ◌≤◌, ◌≡◌, refl, ◌==◌, nat_eq, Bool, true, false, Option, none, some, is_some, List,
  [], ◌∷◌, ◌++◌, arith, Bool-cases, inl, inr,
}
use licensing_master.Base.Rows.{first, update, All, All-update, All-map, All-append, All-zip}
use licensing_master.Base.Keys.{Unique, Unique-update, Unique-append}
use licensing_master.Tables.{Subscription, BatchToken, Device, Db}
use licensing_master.Service.Accounting.{IsKnown, is_via}
use licensing_master.Service.Accounting.Steps.{IsKnown-le}

-- the tenant of the subscription with an id
abbrev pub owner : ℕ → List Subscription → Option ℕ
owner id subs =
    Option.map (λ (s : Subscription). s.tenant_id)
      (first (λ (s : Subscription). s.subscription_id == id) subs)

abbrev pub HasOwner : List Subscription → BatchToken → Type 0
HasOwner subs b = is_some (owner b.subscription_id subs) ≡ true

-- a device of the tenant `k` that refers to one of the tokens refers to one of the tenant's own
abbrev pub IsOwn : List Subscription → List BatchToken → ℕ → Option ℕ → Type 0
IsOwn subs ts k via =
    All (λ b. is_via b.batch_token_id via ≡ true → owner b.subscription_id subs ≡ some k) ts

pub record Owned (subs : List Subscription) (ts : List BatchToken) (ds : List Device) (serial : ℕ)
    : Type 0 where
  pub subs_unique : Unique (λ (s : Subscription). s.subscription_id) subs
  pub subs_below : All (λ (s : Subscription). s.subscription_id < serial) subs
  pub tokens_owned : All (HasOwner subs) ts
  pub vias_known : All (λ (d : Device). IsKnown serial d.activated_via) ds
  pub devices_owned : All (λ (d : Device). IsOwn subs ts d.tenant_id d.activated_via) ds

abbrev pub IsOwned : Db → Type 0
IsOwned db = Owned db.subscriptions db.batch_tokens db.device_activations db.serial

owner-update :
    (id : ℕ) (p : Subscription → Bool) (f : Subscription → Subscription) (subs : List Subscription)
    → ((s : Subscription) → (f s).subscription_id ≡ s.subscription_id)
    → ((s : Subscription) → (f s).tenant_id ≡ s.tenant_id)
    → owner id (update p f subs) ≡ owner id subs
owner-update id p f [] same tenant = refl
owner-update id p f (s ∷ subs) same tenant =
    ground (arith, same s, tenant s, owner-update id p f subs same tenant)

owner-append :
    (id : ℕ) (subs : List Subscription) (s : Subscription)
    → is_some (owner id subs) ≡ true
    → owner id (subs ++ s ∷ []) ≡ owner id subs
owner-append id [] s h = cc
owner-append id (x ∷ subs) s h = elim (Bool-cases (x.subscription_id == id)) [
  | inl on ↦ rw on refl
  | inr off ↦ rw off (owner-append id subs s (rw off at h))
]

module _ (subs : List Subscription) (ts : List BatchToken) (ds : List Device) (s : ℕ)
    (h : Owned subs ts ds s) where
  knows : (s' : ℕ) → s ≤ s' → All (λ (d : Device). IsKnown s' d.activated_via) ds
  knows s' le =
      All-map (λ (d : Device). IsKnown s d.activated_via)
        (λ (d : Device). IsKnown s' d.activated_via) ds
        (λ d p. IsKnown-le s s' d.activated_via le p) h.vias_known

  below : (s' : ℕ) → s ≤ s' → All (λ (x : Subscription). x.subscription_id < s') subs
  below s' le =
      All-map (λ (x : Subscription). x.subscription_id < s) (λ x. x.subscription_id < s') subs
        (λ x p. omega arith) h.subs_below

  pub Owned-later : (s' : ℕ) → s ≤ s' → Owned subs ts ds s'
  Owned-later s' le = record {
    subs_unique = h.subs_unique;
    subs_below = below s' le;
    tokens_owned = h.tokens_owned;
    vias_known = knows s' le;
    devices_owned = h.devices_owned;
  }

  -- A change of tokens that leaves what they are of.
  pub Owned-tokens :
      (p : BatchToken → Bool) (f : BatchToken → BatchToken)
      → ((b : BatchToken) → (f b).batch_token_id ≡ b.batch_token_id)
      → ((b : BatchToken) → (f b).subscription_id ≡ b.subscription_id)
      → Owned subs (update p f ts) ds s
  Owned-tokens p f id of = record {
    subs_unique = h.subs_unique;
    subs_below = h.subs_below;
    tokens_owned =
        All-update (HasOwner subs) (HasOwner subs) p f ts (λ b q _. rw (of b) q) (λ b q _. q)
          h.tokens_owned;
    vias_known = h.vias_known;
    devices_owned =
        All-map (λ (d : Device). IsOwn subs ts d.tenant_id d.activated_via) _ ds
          (λ d q. All-update _ _ p f ts (λ b r _. rw (id b, of b) r) (λ b r _. r) q)
          h.devices_owned;
  }

  -- A change of devices that leaves their tenant and their token.
  pub Owned-devices :
      (p : Device → Bool) (f : Device → Device)
      → ((d : Device) → (f d).tenant_id ≡ d.tenant_id)
      → ((d : Device) → (f d).activated_via ≡ d.activated_via)
      → Owned subs ts (update p f ds) s
  Owned-devices p f tenant via = record {
    subs_unique = h.subs_unique;
    subs_below = h.subs_below;
    tokens_owned = h.tokens_owned;
    vias_known =
        All-update (λ (d : Device). IsKnown s d.activated_via)
          (λ (d : Device). IsKnown s d.activated_via) p f ds (λ d q _. rw (via d) q) (λ d q _. q)
          h.vias_known;
    devices_owned =
        All-update (λ (d : Device). IsOwn subs ts d.tenant_id d.activated_via)
          (λ (d : Device). IsOwn subs ts d.tenant_id d.activated_via) p f ds
          (λ d q _. rw (via d, tenant d) q) (λ d q _. q) h.devices_owned;
  }

  -- A change of subscriptions that leaves their tenants.
  pub Owned-subs :
      (p : Subscription → Bool) (f : Subscription → Subscription)
      → ((x : Subscription) → (f x).subscription_id ≡ x.subscription_id)
      → ((x : Subscription) → (f x).tenant_id ≡ x.tenant_id)
      → Owned (update p f subs) ts ds s
  Owned-subs p f id tenant = record {
    subs_unique = Unique-update (λ (x : Subscription). x.subscription_id) p f subs id h.subs_unique;
    subs_below =
        All-update (λ (x : Subscription). x.subscription_id < s) (λ x. x.subscription_id < s) p f
          subs (λ x q _. rw (id x) q) (λ x q _. q) h.subs_below;
    tokens_owned =
        All-map (HasOwner subs) (HasOwner (update p f subs)) ts
          (λ b q. rw (owner-update b.subscription_id p f subs id tenant) q) h.tokens_owned;
    vias_known = h.vias_known;
    devices_owned =
        All-map (λ (d : Device). IsOwn subs ts d.tenant_id d.activated_via) _ ds
          (λ d q.
            All-map _ _ ts (λ b r on. rw (owner-update b.subscription_id p f subs id tenant) (r on))
              q)
          h.devices_owned;
  }

  -- A new subscription, under the next id.
  pub Owned-subscribe :
      (x : Subscription) → x.subscription_id ≡ s → Owned (subs ++ x ∷ []) ts ds (suc s)
  Owned-subscribe x fresh = record {
    subs_unique =
        Unique-append (λ (x : Subscription). x.subscription_id) subs x h.subs_unique
          (All-map (λ (y : Subscription). y.subscription_id < s) _ subs
            (λ y p. rw fresh (ground arith)) h.subs_below);
    subs_below =
        All-append (λ (y : Subscription). y.subscription_id < suc s) subs (x ∷ [])
          (below (suc s) (omega arith)) (omega arith, tt);
    tokens_owned =
        All-map (HasOwner subs) (HasOwner (subs ++ x ∷ [])) ts
          (λ b q. rw (owner-append b.subscription_id subs x q) q) h.tokens_owned;
    vias_known = knows (suc s) (omega arith);
    devices_owned =
        All-map (λ (d : Device). IsOwn subs ts d.tenant_id d.activated_via) _ ds
          (λ d q.
            All-map _ _ ts (λ b (has, r) on. rw (owner-append b.subscription_id subs x has) (r on))
              (All-zip (HasOwner subs) _ ts h.tokens_owned q))
          h.devices_owned;
  }

  -- A new token of a subscription that is there, under the next id.
  pub Owned-issue :
      (b : BatchToken)
      → b.batch_token_id ≡ s
      → HasOwner subs b
      → Owned subs (ts ++ b ∷ []) ds (suc s)
  Owned-issue b fresh has = record {
    subs_unique = h.subs_unique;
    subs_below = below (suc s) (omega arith);
    tokens_owned = All-append (HasOwner subs) ts (b ∷ []) h.tokens_owned (has, tt);
    vias_known = knows (suc s) (omega arith);
    devices_owned =
        All-map
          (λ (d : Device). IsOwn subs ts d.tenant_id d.activated_via × IsKnown s d.activated_via) _
          ds
          (λ d (q, known).
            All-append _ ts (b ∷ []) q (λ on. absurd (unknown d.activated_via known on), tt))
          (All-zip (λ (d : Device). IsOwn subs ts d.tenant_id d.activated_via)
            (λ (d : Device). IsKnown s d.activated_via) ds h.devices_owned h.vias_known);
  }
    where
      unknown : (via : Option ℕ) → IsKnown s via → is_via b.batch_token_id via ≡ true → ⊥
      unknown none known on = cc
      unknown (some k) known on = ground arith
