-- ===== src/Exec/Keeps.antt =====
-- Invariants of use cases: one rule for each way to build one, for `search`.
use licensing_master.Base.{suc, Bool, true, false, Option, none, some, if◌then◌else◌}
use licensing_master.Tables.{Db}
use licensing_master.Exec.{
  Error, World, Exec, Env, Returns, pure, raise, gets, or_raise, raise_if, when, modify,
  next_serial, now, random_token, transaction, ◌>>=◌,
}
use licensing_master.Exec.Returns.{Returns-bind, transaction-keeps}

-- Where `m` returns it has kept `P` of the database.
pub record Keeps {ℓ κ} {A : Type ℓ} (P : Db → Type κ) (m : Exec A) : Type (ℓ ⊔ κ) where
  pub kept : (w : World) → P w.db → Returns (λ _ v. P v.db) (m w)

module _ {ℓ κ} {A : Type ℓ} {P : Db → Type κ} where
  pub Keeps-pure : (a : A) → Keeps P (pure a)
  Keeps-pure a = record { kept = λ w h. h }

  pub Keeps-raise : (e : Error) → Keeps P (raise {A = A} e)
  Keeps-raise e = record { kept = λ w h. tt }

  pub Keeps-gets : (f : World → A) → Keeps P (gets f)
  Keeps-gets f = record { kept = λ w h. h }

  pub Keeps-or_raise : (o : Option A) (e : Error) → Keeps P (or_raise o e)
  Keeps-or_raise none e = Keeps-raise e
  Keeps-or_raise (some a) e = Keeps-pure a

module _ {κ} {P : Db → Type κ} where
  pub Keeps-raise_if : (b : Bool) (e : Error) → Keeps P (raise_if b e)
  Keeps-raise_if true e = Keeps-raise e
  Keeps-raise_if false e = Keeps-pure tt

  pub Keeps-when : (b : Bool) (m : Exec (Unit {0})) → Keeps P m → Keeps P (when b m)
  Keeps-when true m k = k
  Keeps-when false m k = Keeps-pure tt

  pub Keeps-modify : (f : Db → Db) → ((db : Db) → P db → P (f db)) → Keeps P (modify f)
  Keeps-modify f k = record { kept = λ w h. k w.db h }

  pub Keeps-next_serial :
      ((db : Db) → P db → P (record db { serial = suc db.serial })) → Keeps P next_serial
  Keeps-next_serial k = record { kept = λ w h. k w.db h }

  pub Keeps-now : (env : Env) → Keeps P (now env)
  Keeps-now env = record { kept = λ w h. h }

  pub Keeps-random_token : (env : Env) → Keeps P (random_token env)
  Keeps-random_token env = record { kept = λ w h. h }

module _ {ℓ κ μ} {A : Type ℓ} {B : Type κ} {P : Db → Type μ} where
  pub Keeps-bind :
      (m : Exec A) (f : A → Exec B) → Keeps P m → ((a : A) → Keeps P (f a)) → Keeps P (m >>= f)
  Keeps-bind m f km kf = record {
    kept = λ w h.
        Returns-bind (λ _ v. P v.db) (λ _ v. P v.db) m f w (km.kept w h)
          (λ a v hv. (kf a).kept v hv);
  }

module _ {ℓ κ} {A : Type ℓ} {P : Db → Type κ} where
  pub Keeps-if : (b : Bool) (m n : Exec A) → Keeps P m → Keeps P n → Keeps P (if b then m else n)
  Keeps-if true m n km kn = km
  Keeps-if false m n km kn = kn

  -- In a transaction the database keeps `P` whether the use case returns or raises.
  pub Keeps-transaction : (m : Exec A) → Keeps P m → (w : World) → P w.db → P (transaction m w).1.db
  Keeps-transaction m k w h = transaction-keeps P m w h (k.kept w h)

pub ruleset keeps_rules = (
  Keeps-pure, Keeps-raise, Keeps-gets, Keeps-or_raise, Keeps-raise_if, Keeps-when, Keeps-now,
  Keeps-random_token, Keeps-bind, Keeps-if,
)
