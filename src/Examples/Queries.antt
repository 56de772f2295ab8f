-- ===== src/Examples/Queries.antt =====
-- Heartbeats and verifications of the example's devices, and their configurations.
use Prim.Native.String.{◌++◌ as ◌++ˢ◌}
use mathlib.Core.List.Perm
use licensing_master.Base.{◌≡◌, refl, nat_eq, string_eq, some, [], ◌∷◌, if◌then◌else◌}
use licensing_master.Tables.{Payload, Value}
use licensing_master.Exec.{World, err, transaction, forbidden}
use licensing_master.Exec.Succeeds.{Succeeds}
use licensing_master.Signer.{device_config, canonical, sign_payload}
use licensing_master.Signer.Permutations.{canonical-Perm}
use licensing_master.Signer.Envelope.{device_config-embeds}
use licensing_master.Service.Status.{State, cp_heartbeat, cp_verify_device, device_state, grace_of}
use licensing_master.Service.Status.Windows.{window_state, device_state-window_state}
use licensing_master.Service.Status.Heartbeats.{IsBeaten, cp_heartbeat-Beaten, cp_heartbeat-refused}
use licensing_master.Service.Status.Verdicts.{IsVerdict, cp_verify_device-runs}
use licensing_master.Examples.{live_env, product, shop, shop_plan, till, old_till, world, body_of}

cp_heartbeat-Beaten_example :
    Succeeds
      (IsBeaten live_env world shop product shop_plan "TILL")
      (cp_heartbeat live_env (some 2) (body_of "TILL") world)
cp_heartbeat-Beaten_example =
    cp_heartbeat-Beaten live_env 2 (body_of "TILL") world shop product shop_plan "TILL" till refl
      refl refl refl refl refl refl

cp_heartbeat-refused_example :
    ((transaction (cp_heartbeat live_env (some 2) (body_of "OLD")) world).0 ≡ err forbidden)
    × ((transaction (cp_heartbeat live_env (some 2) (body_of "OLD")) world).1.db ≡ world.db)
cp_heartbeat-refused_example =
    cp_heartbeat-refused live_env 2 (body_of "OLD") world shop product shop_plan "OLD" old_till refl
      refl refl refl refl refl

cp_verify_device-runs_example :
    Succeeds
      (IsVerdict live_env (body_of "TILL") world till)
      (cp_verify_device live_env (some 2) (body_of "TILL") world)
cp_verify_device-runs_example =
    cp_verify_device-runs live_env 2 (body_of "TILL") world shop product "TILL" refl refl refl till
      refl

device_state-window_state_example : device_state live_env till (some shop_plan) 3_000 ≡ (
    if till.is_revoked
    then State.revoked
    else window_state till.valid_until (grace_of live_env (some shop_plan)) 3_000)
device_state-window_state_example = device_state-window_state live_env till (some shop_plan) 3_000

abbrev small : Payload
small = ("schema", Value.text "v1") ∷ ("device_name", Value.text "till") ∷ []

device_config-embeds_example :
    device_config live_env small "S"
    ≡ "{"
      ++ˢ ((live_env.json_scalar (Value.text "payload") ++ˢ (":" ++ˢ canonical live_env small))
          ++ˢ (","
              ++ˢ ((live_env.json_scalar (Value.text "signature")
                    ++ˢ (":" ++ˢ live_env.json_scalar (Value.text "S")))
                  ++ˢ "}")))
device_config-embeds_example = device_config-embeds live_env small "S"

abbrev small_reversed : Payload
small_reversed = ("device_name", Value.text "till") ∷ ("schema", Value.text "v1") ∷ []

canonical-Perm_example :
    (canonical live_env small ≡ canonical live_env small_reversed)
    × ((w : World) → sign_payload live_env small w ≡ sign_payload live_env small_reversed w)
canonical-Perm_example =
    canonical-Perm live_env small small_reversed (Perm.swap _ _ []) ((refl, tt), (tt, tt))
