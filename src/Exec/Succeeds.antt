-- ===== src/Exec/Succeeds.antt =====
-- Use cases that surely return, and use cases that surely raise: one rule for each way on.
use licensing_master.Base.{◌≡◌, refl, ap, Bool, true, false, Option, none, some, if◌then◌else◌}
use licensing_master.Exec.{
  Error, Result, ok, err, World, Exec, raise_if, or_raise, transaction, ◌>>=◌,
}

-- The use case returns, and `Q` holds of what it returns and of the world it leaves.
abbrev pub Succeeds {ℓ} : {A : Type ℓ} → (A → World → Type 0) → Result A × World → Type 0
Succeeds Q (ok a, w) = Q a w
Succeeds Q (err _, _) = ⊥

-- The use case raises `e`.
abbrev pub Fails {ℓ} : {A : Type ℓ} → Error → Result A × World → Type ℓ
Fails e p = p.0 ≡ err e

module _ {ℓ κ} {A : Type ℓ} {B : Type κ} (m : Exec A) (f : A → Exec B) (w : World) where
  -- The first step has returned `a` in the world `v`.
  pub bind-ok : {a : A} {v : World} → m w ≡ (ok a, v) → (m >>= f) w ≡ f a v
  unfolding ◌>>=◌
  bind-ok {a} e = rw (e, ◌>>=◌) (ap (λ p. f a p.1) e)

  pub Succeeds-then :
      (P : B → World → Type 0) {a : A} {v : World}
      → m w ≡ (ok a, v)
      → Succeeds P (f a v)
      → Succeeds P ((m >>= f) w)
  Succeeds-then P e h = rw (bind-ok e) h

  pub Fails-then :
      (error : Error) {a : A} {v : World}
      → m w ≡ (ok a, v)
      → Fails error (f a v)
      → Fails error ((m >>= f) w)
  Fails-then error e h = rw (bind-ok e) h

  pub Fails-first : (error : Error) → Fails error (m w) → Fails error ((m >>= f) w)
  unfolding ◌>>=◌
  Fails-first error h = rw (h, ◌>>=◌) refl

module _ {ℓ} {A : Type ℓ} where
  pub Succeeds-weaken :
      (Q P : A → World → Type 0) (p : Result A × World)
      → Succeeds Q p
      → ((a : A) (w : World) → Q a w → P a w)
      → Succeeds P p
  Succeeds-weaken Q P (ok a, w) h k = k a w h
  Succeeds-weaken Q P (err e, w) h k = h

module _ {ℓ κ} {A : Type ℓ} {B : Type κ} where
  continue-Succeeds :
      (Q : A → World → Type 0) (P : B → World → Type 0) (f : A → Exec B) (r : Result A) (w : World)
      → Succeeds Q (r, w)
      → ((a : A) (v : World) → Q a v → Succeeds P (f a v))
      → Succeeds P (((λ _. (r, w)) >>= f) w)
  unfolding ◌>>=◌
  continue-Succeeds Q P f (ok a) w h k = k a w h
  continue-Succeeds Q P f (err e) w h k = h

  pub Succeeds-bind :
      (Q : A → World → Type 0) (P : B → World → Type 0) (m : Exec A) (f : A → Exec B) (w : World)
      → Succeeds Q (m w)
      → ((a : A) (v : World) → Q a v → Succeeds P (f a v))
      → Succeeds P ((m >>= f) w)
  unfolding ◌>>=◌
  Succeeds-bind Q P m f w h k = let (r, v) = m w in continue-Succeeds Q P f r v h k

module _ {ℓ} {A : Type ℓ} (P : A → World → Type 0) (b : Bool) (m n : Exec A) (w : World) where
  pub Succeeds-if_true : b ≡ true → Succeeds P (m w) → Succeeds P ((if b then m else n) w)
  Succeeds-if_true e h = rw e h

  pub Succeeds-if_false : b ≡ false → Succeeds P (n w) → Succeeds P ((if b then m else n) w)
  Succeeds-if_false e h = rw e h

module _ {ℓ} {A : Type ℓ} (error : Error) (b : Bool) (m n : Exec A) (w : World) where
  pub Fails-if_true : b ≡ true → Fails error (m w) → Fails error ((if b then m else n) w)
  Fails-if_true e h = rw e h

  pub Fails-if_false : b ≡ false → Fails error (n w) → Fails error ((if b then m else n) w)
  Fails-if_false e h = rw e h

pub raise_if-ok : {b : Bool} (e : Error) (w : World) → b ≡ false → raise_if b e w ≡ (ok tt, w)
raise_if-ok e w h = rw h refl

pub raise_if-err : {b : Bool} (e : Error) (w : World) → b ≡ true → Fails e (raise_if b e w)
raise_if-err e w h = rw h refl

pub or_raise-ok {ℓ} :
    {A : Type ℓ} {o : Option A} {a : A} (e : Error) (w : World)
    → o ≡ some a
    → or_raise o e w ≡ (ok a, w)
or_raise-ok e w h = rw h refl

pub or_raise-err {ℓ} :
    {A : Type ℓ} {o : Option A} (e : Error) (w : World) → o ≡ none → Fails e (or_raise o e w)
or_raise-err e w h = rw h refl

-- A use case that raises in a transaction has raised, and the database is as it was.
pub transaction-Fails {ℓ} :
    {A : Type ℓ} (e : Error) (m : Exec A) (w : World)
    → Fails e (m w)
    → ((transaction m w).0 ≡ err e) × ((transaction m w).1.db ≡ w.db)
unfolding transaction
transaction-Fails e m w h = rw (h, transaction) (refl, refl)
