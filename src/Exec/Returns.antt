-- ===== src/Exec/Returns.antt =====
-- Postconditions of use cases, one rule for each way to build one, and what `transaction` adds.
use licensing_master.Base.{
  ℕ, suc, String, ◌≡◌, refl, Bool, true, false, Option, none, some, if◌then◌else◌,
}
use licensing_master.Tables.{Db}
use licensing_master.Exec.{
  Error, Result, ok, err, World, Exec, Env, Returns, ◌>>=◌, raise_if, or_raise, gets, now,
  random_token, transaction,
}

module _ {ℓ κ λ' μ} {A : Type ℓ} {B : Type κ} where
  continue-Returns :
      (P : B → World → Type μ) (Q : A → World → Type λ') (f : A → Exec B) (r : Result A) (w : World)
      → Returns Q (r, w)
      → ((a : A) (w' : World) → Q a w' → Returns P (f a w'))
      → Returns P (((λ _. (r, w)) >>= f) w)
  unfolding ◌>>=◌
  continue-Returns P Q f (ok a) w q k = k a w q
  continue-Returns P Q f (err e) w q k = tt

  -- The rest of a block starts from what its first step has established.
  pub Returns-bind :
      (P : B → World → Type μ) (Q : A → World → Type λ') (m : Exec A) (f : A → Exec B) (w : World)
      → Returns Q (m w)
      → ((a : A) (w' : World) → Q a w' → Returns P (f a w'))
      → Returns P ((m >>= f) w)
  unfolding ◌>>=◌
  Returns-bind P Q m f w q k = let (r, w') = m w in continue-Returns P Q f r w' q k

module _ {ℓ κ λ'} {A : Type ℓ} where
  -- A weaker postcondition.
  pub Returns-weaken :
      (Q : A → World → Type κ) (P : A → World → Type λ') (p : Result A × World)
      → Returns Q p
      → ((a : A) (w : World) → Q a w → P a w)
      → Returns P p
  Returns-weaken Q P (ok a, w) q k = k a w q
  Returns-weaken Q P (err e, w) q k = tt

module _ {ℓ κ λ' μ} {A : Type ℓ} {B : Type κ} where
  -- The rest of a block starts in the world `v`, where its first step has led.
  pub Returns-then :
      (P : B → World → Type μ) (Q : A → Type λ') (m : Exec A) (f : A → Exec B) (w v : World)
      → Returns (λ a u. Q a × (u ≡ v)) (m w)
      → ((a : A) → Q a → Returns P (f a v))
      → Returns P ((m >>= f) w)
  Returns-then P Q m f w v q k =
      Returns-bind P (λ a u. Q a × (u ≡ v)) m f w q (λ a u (h, e). rw e (k a h))

module _ {ℓ κ} {B : Type ℓ} (P : B → World → Type κ) where
  -- The clock and the random source answer, and count the question.
  pub Returns-now :
      (env : Env) (f : ℕ → Exec B) (w : World)
      → Returns P (f (env.clock w.asked) (record w { asked = suc w.asked }))
      → Returns P ((now env >>= f) w)
  unfolding ◌>>=◌
  Returns-now env f w h = h

  pub Returns-random_token :
      (env : Env) (f : String → Exec B) (w : World)
      → Returns P (f (env.token_urlsafe w.asked) (record w { asked = suc w.asked }))
      → Returns P ((random_token env >>= f) w)
  unfolding ◌>>=◌
  Returns-random_token env f w h = h

  pub Returns-if :
      (b : Bool) (m n : Exec B) (w : World)
      → (b ≡ true → Returns P (m w))
      → (b ≡ false → Returns P (n w))
      → Returns P ((if b then m else n) w)
  Returns-if true m n w t f = t refl
  Returns-if false m n w t f = f refl

  pub Returns-gets {μ} :
      {A : Type μ} (g : World → A) (f : A → Exec B) (w : World)
      → Returns P (f (g w) w)
      → Returns P ((gets g >>= f) w)
  unfolding ◌>>=◌
  Returns-gets g f w h = h

pub Returns-raise_if :
    (b : Bool) (e : Error) (w : World) → Returns (λ _ w'. (b ≡ false) × (w' ≡ w)) (raise_if b e w)
Returns-raise_if true e w = tt
Returns-raise_if false e w = (refl, refl)

pub Returns-or_raise {ℓ} :
    {A : Type ℓ} (o : Option A) (e : Error) (w : World)
    → Returns (λ a w'. (o ≡ some a) × (w' ≡ w)) (or_raise o e w)
Returns-or_raise none e w = tt
Returns-or_raise (some a) e w = (refl, refl)

settle-Returns {ℓ κ} :
    {A : Type ℓ} (P : Db → Type κ) (db : Db) (r : Result A) (w w' : World)
    → P w.db
    → Returns (λ _ v. P v.db) (r, w')
    → P (transaction (λ _. (r, w')) w).1.db
unfolding transaction
settle-Returns P db (ok a) w w' h k = k
settle-Returns P db (err e) w w' h k = h

-- A use case that keeps `P` whenever it returns keeps `P` always when it runs in a transaction.
pub transaction-keeps {ℓ κ} :
    {A : Type ℓ} (P : Db → Type κ) (m : Exec A) (w : World)
    → P w.db
    → Returns (λ _ v. P v.db) (m w)
    → P (transaction m w).1.db
unfolding transaction
transaction-keeps P m w h k = let (r, w') = m w in settle-Returns P w.db r w w' h k
