-- ===== src/Service/BaseUrl.antt =====
-- `_norm_base_url` of licensing-master/src/service.py, over native texts.
pub mod Origins
use Prim.Native.Char.{Char, code}
use Prim.Native.String.{◌++◌ as ◌++ˢ◌}
use text.Mathlib.Text.{starts_with}
use licensing_master.Base.{
  String, ◌==◌, nat_eq, string_eq, Bool, not, ◌&&◌, ◌||◌, Option, none, some, if◌then◌else◌,
}
use licensing_master.Exec.{Exec, Env, validation, pure, raise_if, ◌>>◌}

abbrev is_slash : Char → Bool
is_slash c = code c == 47

-- `s.rstrip("/")`
unfoldable pub rstrip_slash : String → String
rstrip_slash String.[] = String.[]
rstrip_slash (String.◌∷◌ c s) =
    let rest = rstrip_slash s in if is_slash c && rest == "" then String.[] else String.◌∷◌ c rest

-- `s.removesuffix(suffix)`, for a suffix that is not empty
unfoldable pub remove_suffix : String → String → String
remove_suffix suffix String.[] = String.[]
remove_suffix suffix (String.◌∷◌ c s) =
    let rest = remove_suffix suffix s in
    if String.◌∷◌ c s == suffix then String.[] else String.◌∷◌ c rest

unfoldable pub with_scheme : String → String
with_scheme u = if starts_with u "http://" || starts_with u "https://" then u else "https://" ++ˢ u

unfoldable pub trim_path : String → String
trim_path u = rstrip_slash (remove_suffix "/api/v1" (rstrip_slash u))

module _ (env : Env) where
  unfoldable pub norm_scheme : String → Exec (Option String)
  norm_scheme u = do
    raise_if (starts_with u "http://" && not env.is_dev) (validation "base_url")
    pure (some (trim_path u))

  -- `_norm_base_url`
  unfoldable pub norm_base_url : Option String → Exec (Option String)
  norm_base_url none = pure none
  norm_base_url (some raw) =
      if raw == "" || env.strip raw == ""
      then pure none
      else norm_scheme (with_scheme (env.strip raw))
