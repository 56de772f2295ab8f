-- ===== src/Signer.antt =====
-- licensing-master/src/signer.py and the canonical JSON of `json.dumps(…, sort_keys=True,
-- separators=(",", ":"))`. How a scalar is written as JSON is `json_scalar` of the environment.
pub mod Envelope
pub mod KeyOrder
pub mod Permutations
use Prim.Native.Nat.{Ordering}
use Prim.Native.String.{compare, ◌++◌ as ◌++ˢ◌, slice}
use licensing_master.Base.{
  String, ◌≡◌, arith, ◌==◌, string_eq, List, [], ◌∷◌, Option, none, some, if◌then◌else◌, Bool, true,
  false,
}
use licensing_master.Tables.{Payload, Value}
use licensing_master.Exec.{Exec, Env, World, Returns, ok, signing_key_error, pure, raise}

-- a member's key and the JSON text of its value
abbrev pub Members : Type 0
Members = List (String × String)

-- what `json.dumps` is given: scalars, and objects of members in their order
mutual
  pub data Json : Type 0 where
    scalar : Value → Json
    object : JsonMembers → Json

  pub data JsonMembers : Type 0 where
    end : JsonMembers
    entry : String → Json → JsonMembers → JsonMembers

-- a payload as an object's members
unfoldable pub of_payload : Payload → JsonMembers
of_payload [] = end
of_payload ((k, v) ∷ rest) = entry k (scalar v) (of_payload rest)

unfoldable pub insert_member : String × String → Members → Members
insert_member m [] = m ∷ []
insert_member m (x ∷ xs) =
    let rest = insert_member m xs in
    elim (compare x.0 m.0) [ Ordering.gt ↦ m ∷ x ∷ xs | _ ↦ x ∷ rest ]

unfoldable pub sort_keys : Members → Members
unfolding insert_member
sort_keys [] = []
sort_keys (m ∷ ms) = insert_member m (sort_keys ms)

module _ (env : Env) where
  -- a member as JSON text
  unfoldable pub member : String × String → String
  member m = env.json_scalar (Value.text m.0) ++ˢ (":" ++ˢ m.1)

  more_members : Members → String
  unfolding member
  more_members [] = "}"
  more_members (m ∷ ms) = "," ++ˢ (member m ++ˢ more_members ms)

  write_members : Members → String
  unfolding more_members
  write_members [] = "{}"
  write_members (m ∷ ms) = "{" ++ˢ (member m ++ˢ more_members ms)

  -- `json.dumps` of an object
  unfoldable pub dumps : Members → String
  unfolding sort_keys write_members
  dumps ms = write_members (sort_keys ms)

  scalars : Payload → Members
  scalars [] = []
  scalars ((k, v) ∷ rest) = (k, env.json_scalar v) ∷ scalars rest

  -- `_canonical`
  unfoldable pub canonical : Payload → String
  unfolding scalars dumps
  canonical payload = dumps (scalars payload)

  abbrev signed : Option String → Exec String
  signed none = raise signing_key_error
  signed (some signature) = pure ("ed25519:" ++ˢ signature)

  -- `sign_payload`
  unfoldable pub sign_payload : Payload → Exec String
  unfolding canonical
  sign_payload payload =
      if env.strip env.signing_key == ""
      then (if env.is_dev
          then pure ("DEVCFG:" ++ˢ slice (env.sha256 (canonical payload)) 0 32)
          else raise signing_key_error)
      else signed (env.ed25519 (env.strip env.signing_key) (canonical payload))

  -- the members in the order in which `json.dumps` writes them, with or without `sort_keys`
  unfoldable pub ordered : Bool → Members → Members
  unfolding sort_keys
  ordered true ms = sort_keys ms
  ordered false ms = ms

  -- `json.dumps` of a value, with or without `sort_keys`, which goes for the objects inside it too
  unfoldable mutual
    unfolding ordered write_members

    pub dump : Bool → Json → String
    dump sort (scalar v) = env.json_scalar v
    dump sort (object ms) = write_members (ordered sort (texts sort ms))

    pub texts : Bool → JsonMembers → Members
    texts sort end = []
    texts sort (entry k v rest) = (k, dump sort v) ∷ texts sort rest

  -- `_device_config` of service.py: the envelope of the payload and its signature
  unfoldable pub device_config : Payload → String → String
  unfolding dump of_payload
  device_config payload signature = dump true (
      object (
        entry "payload" (object (of_payload payload))
          (entry "signature" (scalar (Value.text signature)) end)))

  -- Signing writes nothing.
  pub sign_payload-Returns :
      (payload : Payload) (w : World) → Returns (λ _ v. v ≡ w) (sign_payload payload w)
  unfolding sign_payload
  sign_payload-Returns payload w = ground arith

  -- The process can sign: whatever the payload, `sign_payload` returns.
  abbrev pub Signs : Type 0
  Signs = (payload : Payload) (w : World) → (s : String) × (sign_payload payload w ≡ (ok s, w))
