-- ===== src/Signer/Envelope.antt =====
-- The text of a `device_config.dat`, and what of it is signed.
use Prim.Native.String.{◌++◌ as ◌++ˢ◌}
use licensing_master.Base.{String, ◌≡◌, refl, ◌==◌, string_eq, true, false, some, ap, Bool, [], ◌∷◌}
use licensing_master.Tables.{Payload, Value}
use licensing_master.Exec.{Env, World, ok, err, signing_key_error}
use licensing_master.Signer.{
  device_config, canonical, dumps, member, sign_payload, of_payload, dump, texts, scalars, object,
  ordered, sort_keys, write_members,
}

-- The members of a payload inside an object are written as they are by themselves.
texts-of_payload :
    (env : Env) (sort : Bool) (payload : Payload)
    → texts env sort (of_payload payload) ≡ scalars env payload
unfolding dump of_payload scalars
texts-of_payload env sort [] = refl
texts-of_payload env sort ((k, v) ∷ rest) =
    ap (λ ms. (k, env.json_scalar v) ∷ ms) (texts-of_payload env sort rest)

-- The payload, written inside another object with sorted keys, is the text that is signed.
dump-canonical :
    (env : Env) (payload : Payload)
    → dump env true (object (of_payload payload)) ≡ canonical env payload
unfolding canonical dumps dump ordered
dump-canonical env payload =
    ap (λ ms. write_members env (sort_keys ms)) (texts-of_payload env true payload)

-- The text is an object of two members, the payload and the signature, and the payload's value in it,
-- which `json.dumps` writes anew from the payload, is the very text that was signed.
pub device_config-embeds :
    (env : Env) (payload : Payload) (signature : String)
    → device_config env payload signature
      ≡ "{"
        ++ˢ ((env.json_scalar (Value.text "payload") ++ˢ (":" ++ˢ canonical env payload))
            ++ˢ (","
                ++ˢ ((env.json_scalar (Value.text "signature")
                      ++ˢ (":" ++ˢ env.json_scalar (Value.text signature)))
                    ++ˢ "}")))
unfolding device_config dump ordered member
device_config-embeds env payload signature = rw (← dump-canonical env payload) refl

-- What `sign_payload` returns for a process with a key, whatever the payload: the prefix and the
-- signature of the payload's canonical text, by the key without blanks around it.
pub sign_payload-signs :
    (env : Env) (payload : Payload) (signature : String) (w : World)
    → (env.strip env.signing_key == "") ≡ false
    → env.ed25519 (env.strip env.signing_key) (canonical env payload) ≡ some signature
    → sign_payload env payload w ≡ (ok ("ed25519:" ++ˢ signature), w)
unfolding sign_payload
sign_payload-signs env payload signature w keyed e = rw (keyed, e) refl

-- Without a key outside development no payload is signed.
pub sign_payload-closed :
    (env : Env) (payload : Payload) (w : World)
    → (env.strip env.signing_key == "") ≡ true
    → env.is_dev ≡ false
    → sign_payload env payload w ≡ (err signing_key_error, w)
unfolding sign_payload
sign_payload-closed env payload w blank live = rw (blank, live) refl
