-- ===== src/Config/Startup.antt =====
-- What the settings of licensing-master/src/config.py guarantee once the process has started.
use Prim.Native.String.{◌++◌ as ◌++ˢ◌}
use licensing_master.Base.{
  ◌≡◌, refl, String, ◌==◌, nat_eq, string_eq, true, false, ◌&&◌, Option, none, some, is_some, arith,
}
use licensing_master.Tables.{Payload}
use licensing_master.Exec.{Env, World, ok}
use licensing_master.Limiter.{Limiter}
use licensing_master.Signer.{canonical, sign_payload}
use licensing_master.Signer.Envelope.{sign_payload-signs}
use licensing_master.Routers.{App}
use licensing_master.Config.{
  KeyLibrary, Thresholds, Settings, are_positive, in_bounds, new_limiter, load_limiters, ◌>>=◌,
  parse_ed25519_private_key, is_dev, signing_key_required_outside_dev, is_accepted, sign_with,
  env_of,
}

some_of_is_some : {A : Type 0} (o : Option A) → is_some o ≡ true → (a : A) × (o ≡ some a)
some_of_is_some none h = absurd (cc)
some_of_is_some (some a) h = (a, refl)

new_limiter-positive : (t : Thresholds) → are_positive t ≡ true → is_some (new_limiter t) ≡ true
unfolding new_limiter
new_limiter-positive t h = ground arith

loaded :
    (a b c d : Option Limiter) (w : World)
    → (is_some a && is_some b && is_some c && is_some d) ≡ true
    → is_some {A = App} (
        a >>= λ activation. b >>= λ service. c >>= λ by_email. d >>= λ by_ip. some (record {
          activation_limiter = activation;
          service_auth_limiter = service;
          login_email_limiter = by_email;
          login_ip_limiter = by_ip;
          world = w;
        }))
      ≡ true
loaded (some a) (some b) (some c) (some d) w h = refl
loaded (some a) (some b) (some c) none w h = h
loaded (some a) (some b) none d w h = h
loaded (some a) none c d w h = h
loaded none b c d w h = h

module _ {Key : Type 0} (keys : KeyLibrary Key) (env : Env) (s : Settings) where
  -- the process has a key to sign with
  abbrev pub HasKey : Type 0
  HasKey =
      (key : Key) × ((payload : Payload) (w : World)
        → sign_payload (env_of keys env s) payload w
          ≡ (ok ("ed25519:" ++ˢ keys.sign key (canonical (env_of keys env s) payload)), w))

  is_accepted-signs :
      ((text : String) → env.strip (env.strip text) ≡ env.strip text)
      → is_accepted keys env s ≡ true
      → (is_dev keys env s && env.strip s.ed25519_private_key_b64 == "") ≡ false
      → HasKey
  unfolding is_accepted signing_key_required_outside_dev sign_with parse_ed25519_private_key
  is_accepted-signs strip_twice accepted live =
      let keyed : (env.strip s.ed25519_private_key_b64 == "") ≡ false = ground arith in
      let parsed : is_some (parse_ed25519_private_key keys env s.ed25519_private_key_b64) ≡ true =
        ground arith in
      let (key, found) = some_of_is_some _ parsed in
      (
        key,
        λ payload w.
            sign_payload-signs (env_of keys env s) payload _ w keyed
              (rw (strip_twice s.ed25519_private_key_b64, found) refl),
      )

  loads : (w : World) → is_accepted keys env s ≡ true → is_some (load_limiters s w) ≡ true
  unfolding is_accepted in_bounds load_limiters
  loads w accepted =
      loaded (new_limiter s.activate) (new_limiter s.cp_auth) (new_limiter s.admin_login_email)
        (new_limiter s.admin_login_ip) w
        (ground (
          arith,
          new_limiter-positive s.activate,
          new_limiter-positive s.cp_auth,
          new_limiter-positive s.admin_login_email,
          new_limiter-positive s.admin_login_ip,
        ))

  -- A process starts where its settings are accepted: its four limiters are built. Outside development,
  -- or with a key, it then signs every payload with its key and never raises. `strip` takes away nothing
  -- the second time.
  pub is_accepted-starts :
      (w : World)
      → ((text : String) → env.strip (env.strip text) ≡ env.strip text)
      → is_accepted keys env s ≡ true
      → (is_dev keys env s && env.strip s.ed25519_private_key_b64 == "") ≡ false
      → (is_some (load_limiters s w) ≡ true) × HasKey
  is_accepted-starts w strip_twice accepted live =
      (loads w accepted, is_accepted-signs strip_twice accepted live)

  -- Outside development no settings without a key that can be read are accepted.
  pub is_accepted-keyless :
      is_dev keys env s ≡ false
      → parse_ed25519_private_key keys env s.ed25519_private_key_b64 ≡ none
      → is_accepted keys env s ≡ false
  unfolding is_accepted signing_key_required_outside_dev
  is_accepted-keyless live unread = ground arith
