-- ===== src/Service/Soundness.antt =====
-- The database of licensing-master/src/service.py is sound: the seats are accounted for, and what belongs
-- together is the same tenant's.
pub mod Admin
pub mod Tokens
pub mod Queries
pub mod UseCases
use licensing_master.Base.{ℕ, suc, arith, ◌≡◌, ◌≤◌, List, [], ◌∷◌, ◌++◌, Bool}
use licensing_master.Base.Rows.{update}
use licensing_master.Tables.{Subscription, BatchToken, Device, Db}
use licensing_master.Exec.{Exec, Result, ok, err, World, Returns}
use licensing_master.Exec.Keeps.{Keeps}
use licensing_master.Service.Accounting.{Accounted, IsAccounted}
use licensing_master.Service.Accounting.Steps.{Accounted-later, Accounted-edit}
use licensing_master.Service.Accounting.Tokens.{Accounted-insert, Accounted-mark}
use licensing_master.Service.Ownership.{
  Owned, IsOwned, HasOwner, Owned-later, Owned-tokens, Owned-devices, Owned-subs, Owned-subscribe,
  Owned-issue,
}

pub record Sound (subs : List Subscription) (ts : List BatchToken) (ds : List Device) (serial : ℕ)
    : Type 0 where
  pub accounted : Accounted ts ds serial
  pub owned : Owned subs ts ds serial

abbrev pub IsSound : Db → Type 0
IsSound db = Sound db.subscriptions db.batch_tokens db.device_activations db.serial

module _ (subs : List Subscription) (ts : List BatchToken) (ds : List Device) (s : ℕ)
    (h : Sound subs ts ds s) where
  pub Sound-later : (s' : ℕ) → s ≤ s' → Sound subs ts ds s'
  Sound-later s' le = record {
    accounted = Accounted-later ts ds s h.accounted s' le;
    owned = Owned-later subs ts ds s h.owned s' le;
  }

  -- A change of subscriptions that leaves their tenants.
  pub Sound-subs :
      (p : Subscription → Bool) (f : Subscription → Subscription)
      → ((x : Subscription) → (f x).subscription_id ≡ x.subscription_id)
      → ((x : Subscription) → (f x).tenant_id ≡ x.tenant_id)
      → Sound (update p f subs) ts ds s
  Sound-subs p f id tenant = record {
    accounted = h.accounted;
    owned = Owned-subs subs ts ds s h.owned p f id tenant;
  }

  -- A new subscription, under the next id.
  pub Sound-subscribe :
      (x : Subscription) → x.subscription_id ≡ s → Sound (subs ++ x ∷ []) ts ds (suc s)
  Sound-subscribe x fresh = record {
    accounted = Accounted-later ts ds s h.accounted (suc s) (omega arith);
    owned = Owned-subscribe subs ts ds s h.owned x fresh;
  }

  -- A new token of a subscription that is there, with no seat taken, under the next id.
  pub Sound-issue :
      (b : BatchToken)
      → b.batch_token_id ≡ s
      → b.seats_consumed ≡ 0
      → HasOwner subs b
      → Sound subs (ts ++ b ∷ []) ds (suc s)
  Sound-issue b fresh unused has = record {
    accounted = Accounted-insert ts ds s h.accounted b fresh unused;
    owned = Owned-issue subs ts ds s h.owned b fresh has;
  }

  -- A change of tokens that leaves their figures and what they are of.
  pub Sound-mark :
      (p : BatchToken → Bool) (f : BatchToken → BatchToken)
      → ((b : BatchToken) → (f b).batch_token_id ≡ b.batch_token_id)
      → ((b : BatchToken) → (f b).subscription_id ≡ b.subscription_id)
      → ((b : BatchToken) → (f b).seats_consumed ≡ b.seats_consumed)
      → ((b : BatchToken) → (f b).quota ≡ b.quota)
      → Sound subs (update p f ts) ds s
  Sound-mark p f id of seats quota = record {
    accounted = Accounted-mark ts ds s h.accounted p f id seats quota;
    owned = Owned-tokens subs ts ds s h.owned p f id of;
  }

  -- A change of devices that leaves their bookings.
  pub Sound-edit :
      (p : Device → Bool) (f : Device → Device)
      → ((d : Device) → (f d).hardware_uuid ≡ d.hardware_uuid)
      → ((d : Device) → (f d).is_revoked ≡ d.is_revoked)
      → ((d : Device) → (f d).tenant_id ≡ d.tenant_id)
      → ((d : Device) → (f d).activated_via ≡ d.activated_via)
      → Sound subs ts (update p f ds) s
  Sound-edit p f hw live tenant via = record {
    accounted = Accounted-edit ts ds s h.accounted p f hw live via;
    owned = Owned-devices subs ts ds s h.owned p f tenant via;
  }

module _ {A : Type 0} where
  both :
      (r : Result A) (w : World)
      → Returns (λ _ v. IsAccounted v.db) (r, w)
      → Returns (λ _ v. IsOwned v.db) (r, w)
      → Returns (λ _ v. IsSound v.db) (r, w)
  both (ok a) w h o = record { accounted = h; owned = o }
  both (err e) w h o = tt

  -- The two halves are kept each by itself.
  pub Keeps-both :
      (m : Exec A)
      → ((w : World) → IsSound w.db → Returns (λ _ v. IsAccounted v.db) (m w))
      → ((w : World) → IsSound w.db → Returns (λ _ v. IsOwned v.db) (m w))
      → Keeps IsSound m
  Keeps-both m h o = record { kept = λ w s. both (m w).0 (m w).1 (h w s) (o w s) }
