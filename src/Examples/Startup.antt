-- ===== src/Examples/Startup.antt =====
-- Settings of a process outside development, with a key and without.
use licensing_master.Base.{
  ◌≡◌, refl, String, ◌==◌, string_eq, true, false, none, some, is_some, [], ◌∷◌, if◌then◌else◌,
}
use licensing_master.Config.{
  KeyLibrary, Thresholds, Settings, in_bounds, load_limiters, parse_ed25519_private_key, is_dev,
  signing_key_required_outside_dev, is_accepted,
}
use licensing_master.Config.Startup.{HasKey, is_accepted-starts, is_accepted-keyless}
use licensing_master.Examples.{live_env, world}

abbrev keys : KeyLibrary String
keys = record {
  b64decode = λ s. if s == "KEY" then some (1 ∷ []) else none;
  from_private_bytes = λ raw. some "key";
  sign = λ key text. "signature";
}

abbrev thresholds : Thresholds
thresholds = record { max_failures = 10; window_seconds = 600; lockout_seconds = 900 }

abbrev live_settings : Settings
live_settings = record {
  app_env = "production";
  ed25519_private_key_b64 = "KEY";
  admin_session_idle_seconds = 1_800;
  admin_session_absolute_seconds = 28_800;
  default_window_days = 30;
  default_grace_days = 5;
  default_seat_limit = 5;
  activate = thresholds;
  cp_auth = thresholds;
  admin_login_email = thresholds;
  admin_login_ip = thresholds;
}

live_accepted : is_accepted keys live_env live_settings ≡ true
unfolding is_accepted in_bounds signing_key_required_outside_dev parse_ed25519_private_key
live_accepted = refl

live_is_live : is_dev keys live_env live_settings ≡ false
unfolding is_dev
live_is_live = refl

is_accepted-starts_example :
    (is_some (load_limiters live_settings world) ≡ true) × HasKey keys live_env live_settings
is_accepted-starts_example =
    is_accepted-starts keys live_env live_settings world (λ text. refl) live_accepted
      (rw live_is_live refl)

abbrev keyless_settings : Settings
keyless_settings = record live_settings { ed25519_private_key_b64 = "KE" }

unread : parse_ed25519_private_key keys live_env "KE" ≡ none
unfolding parse_ed25519_private_key
unread = refl

keyless_is_live : is_dev keys live_env keyless_settings ≡ false
unfolding is_dev
keyless_is_live = refl

is_accepted-keyless_settings : is_accepted keys live_env keyless_settings ≡ false
is_accepted-keyless_settings =
    is_accepted-keyless keys live_env keyless_settings keyless_is_live unread
