-- ===== src/Service/Tenants/Bodies.antt =====
-- The JSON bodies of the tenant endpoints, and how the code and the table's CHECKs read numbers.
use licensing_master.Base.{ℕ, zero, suc, String, Option, none, some}
use licensing_master.Base.Int.{ℤ, pos, negsuc}
use licensing_master.Exec.{Exec, integrity_error, pure, raise}

pub record TenantBody : Type 0 where
  pub product_code : Option String
  pub slug : Option String
  pub name : Option String
  pub contact_email : Option String
  pub base_url : Option String
  pub plan_name : Option String
  pub seat_limit : Option ℤ
  pub window_days : Option ℤ
  pub grace_days : Option ℤ

-- For a nullable key, `none` is an absent key and `some none` a null.
pub record TenantPatch : Type 0 where
  pub name : Option String
  pub contact_email : Option (Option String)
  pub base_url : Option (Option String)

-- `int(body.get(key) or default)`
abbrev pub or_default : Option ℤ → ℕ → ℤ
or_default none d = pos d
or_default (some (pos zero)) d = pos d
or_default (some (pos (suc n))) d = pos (suc n)
or_default (some (negsuc n)) d = negsuc n

-- CHECK (column >= 0)
abbrev pub check_nonneg : ℤ → Exec ℕ
check_nonneg (pos n) = pure n
check_nonneg (negsuc _) = raise integrity_error

-- CHECK (column > 0)
abbrev pub check_pos : ℤ → Exec ℕ
check_pos (pos zero) = raise integrity_error
check_pos (pos (suc n)) = pure (suc n)
check_pos (negsuc _) = raise integrity_error
