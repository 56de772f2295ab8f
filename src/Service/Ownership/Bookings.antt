-- ===== src/Service/Ownership/Bookings.antt =====
-- A booking in licensing-master/src/service.py puts the device under the tenant that the batch token is of.
use licensing_master.Base.{
  ℕ, suc, ◌≡◌, refl, ◌∙◌, nat_eq, string_eq, String, Bool, Option, none, some, List, [], ◌∷◌, ◌++◌,
  arith,
}
use licensing_master.Base.Rows.{update, All-update, All-append}
use licensing_master.Tables.{Subscription, BatchToken, Device, Db, Payload}
use licensing_master.Exec.{Env, next_serial, modify}
use licensing_master.Exec.Keeps.{
  Keeps, Keeps-modify, Keeps-next_serial, Keeps-bind, Keeps-pure, Keeps-gets, keeps_rules,
}
use licensing_master.Service.Reads.{Keeps-find_device}
use licensing_master.Service.Rows.{audit, update_devices, update_tokens}
use licensing_master.Service.Seats.{consume_seat, has_room, take_seat}
use licensing_master.Service.Activation.{new_device, insert_device, write_booking}
use licensing_master.Service.Accounting.{IsKnown}
use licensing_master.Service.Accounting.Steps.{at_uuid}
use licensing_master.Service.Ownership.{Owned, IsOwn, Owned-later, Owned-tokens, Owned-devices}

module _ (k owner_id : ℕ) where
  -- the token `k` is of the tenant `owner_id`
  pub record Booking (subs : List Subscription) (ts : List BatchToken) (ds : List Device)
      (serial : ℕ) : Type 0 where
    pub owned : Owned subs ts ds serial
    pub known : IsKnown serial (some k)
    pub own : IsOwn subs ts owner_id (some k)

  abbrev pub IsBooking : Db → Type 0
  IsBooking db = Booking db.subscriptions db.batch_tokens db.device_activations db.serial

  pub keep_serial : Keeps IsBooking next_serial
  keep_serial = Keeps-next_serial (λ db h.
      let (pos_, lt_) = h.known in
      record {
        owned = Owned-later _ _ _ db.serial h.owned (suc db.serial) (omega arith);
        known = (pos_, omega arith);
        own = h.own;
      })

  pub keep_audit :
      (env : Env) (actor action kind target : String) (payload : Option Payload)
      → Keeps IsBooking (audit env actor action kind target payload)
  unfolding audit
  keep_audit env actor action kind target payload = search (keeps_rules, keep_serial, Keeps-modify)

  -- a change of tokens that leaves what they are of
  keep_tokens :
      (p : BatchToken → Bool) (f : BatchToken → BatchToken)
      → ((b : BatchToken) → (f b).batch_token_id ≡ b.batch_token_id)
      → ((b : BatchToken) → (f b).subscription_id ≡ b.subscription_id)
      → Keeps IsBooking (update_tokens p f)
  unfolding update_tokens
  keep_tokens p f id of = Keeps-bind _ _ (Keeps-gets _) (λ matched.
      Keeps-bind _ _
        (Keeps-modify _ (λ db h. record {
          owned = Owned-tokens _ _ _ _ h.owned p f id of;
          known = h.known;
          own = All-update _ _ p f db.batch_tokens (λ b q _. rw (id b, of b) q) (λ b q _. q) h.own;
        }))
        (λ _. Keeps-pure _))

  pub keep_consume_seat : (tok : BatchToken) → Keeps IsBooking (consume_seat tok)
  unfolding consume_seat
  keep_consume_seat tok =
      Keeps-bind _ _ (keep_tokens (has_room tok.batch_token_id) take_seat (λ _. refl) (λ _. refl))
        (λ updated. search keeps_rules)

  keep_rows :
      (p : Device → Bool) (f : Device → Device)
      → ((db : Db)
          → IsBooking db
          → IsBooking (record db { device_activations = update p f db.device_activations }))
      → Keeps IsBooking (update_devices p f)
  unfolding update_devices
  keep_rows p f k =
      Keeps-bind _ _ (Keeps-gets _) (λ found. Keeps-bind _ _ (Keeps-modify _ k) (λ _. Keeps-pure _))

  -- a change of devices that leaves their tenant and their token
  pub keep_edit :
      (p : Device → Bool) (f : Device → Device)
      → ((d : Device) → (f d).tenant_id ≡ d.tenant_id)
      → ((d : Device) → (f d).activated_via ≡ d.activated_via)
      → Keeps IsBooking (update_devices p f)
  keep_edit p f tenant via = keep_rows p f (λ db h. record {
    owned = Owned-devices _ _ _ _ h.owned p f tenant via;
    known = h.known;
    own = h.own;
  })

  IsOwn-at :
      (subs : List Subscription) (ts : List BatchToken) (d : Device)
      → d.tenant_id ≡ owner_id
      → d.activated_via ≡ some k
      → IsOwn subs ts owner_id (some k)
      → IsOwn subs ts d.tenant_id d.activated_via
  IsOwn-at subs ts d tenant via h = rw (tenant, via) h

  -- the booking's row, over an old row or a new one
  pub keep_write :
      (env : Env) (hw : String) (o : Option Device) (fill revive : Device → Device)
      → ((d : Device) → (fill d).tenant_id ≡ owner_id)
      → ((d : Device) → (fill d).activated_via ≡ some k)
      → ((d : Device) → (revive d).tenant_id ≡ d.tenant_id)
      → ((d : Device) → (revive d).activated_via ≡ d.activated_via)
      → Keeps IsBooking (write_booking env hw o fill revive)
  unfolding write_booking insert_device update_devices
  keep_write env hw none fill revive tenant via tenant' via' =
      search (keeps_rules, Keeps-find_device, keep_serial, keep_row) depth 20
    where
      keep_row :
          (id : ℕ)
          → Keeps IsBooking (
              modify (λ db. record db {
                device_activations = db.device_activations ++ fill (new_device env id hw) ∷ [];
              }))
      keep_row id = Keeps-modify _ (λ db h. record {
        owned = record {
          subs_unique = h.owned.subs_unique;
          subs_below = h.owned.subs_below;
          tokens_owned = h.owned.tokens_owned;
          vias_known =
              All-append (λ (d : Device). IsKnown db.serial d.activated_via) db.device_activations
                (_ ∷ []) h.owned.vias_known (rw (via (new_device env id hw)) h.known, tt);
          devices_owned =
              All-append
                (λ (d : Device). IsOwn db.subscriptions db.batch_tokens d.tenant_id d.activated_via)
                db.device_activations (_ ∷ []) h.owned.devices_owned
                (
                  IsOwn-at db.subscriptions db.batch_tokens (fill (new_device env id hw))
                      (tenant (new_device env id hw)) (via (new_device env id hw)) h.own,
                  tt,
                );
        };
        known = h.known;
        own = h.own;
      })
  keep_write env hw (some old) fill revive tenant via tenant' via' =
      Keeps-bind _ _ (keep_rows (at_uuid hw) (λ d. revive (fill d)) kept)
        (λ found. search keeps_rules)
    where
      kept :
          (db : Db)
          → IsBooking db
          → IsBooking (record db {
            device_activations = update (at_uuid hw) (λ d. revive (fill d)) db.device_activations;
          })
      kept db h = record {
        owned = record {
          subs_unique = h.owned.subs_unique;
          subs_below = h.owned.subs_below;
          tokens_owned = h.owned.tokens_owned;
          vias_known =
              All-update (λ (d : Device). IsKnown db.serial d.activated_via)
                (λ (d : Device). IsKnown db.serial d.activated_via) (at_uuid hw) _
                db.device_activations (λ d _ _. rw (via' (fill d), via d) h.known) (λ d q _. q)
                h.owned.vias_known;
          devices_owned =
              All-update
                (λ (d : Device). IsOwn db.subscriptions db.batch_tokens d.tenant_id d.activated_via)
                (λ (d : Device). IsOwn db.subscriptions db.batch_tokens d.tenant_id d.activated_via)
                (at_uuid hw) _ db.device_activations
                (λ d _ _.
                  IsOwn-at db.subscriptions db.batch_tokens (revive (fill d))
                    (tenant' (fill d) ∙ tenant d) (via' (fill d) ∙ via d) h.own)
                (λ d q _. q) h.owned.devices_owned;
        };
        known = h.known;
        own = h.own;
      }
