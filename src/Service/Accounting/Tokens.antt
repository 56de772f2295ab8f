-- ===== src/Service/Accounting/Tokens.antt =====
-- A new batch token starts with no booking against it, and a revoked one keeps its count.
use licensing_master.Base.{
  ℕ, suc, ◌≤◌, ◌≡◌, refl, ◌==◌, nat_eq, string_eq, Bool, false, Option, none, some, List, [], ◌∷◌,
  ◌++◌, arith,
}
use licensing_master.Base.Rows.{update, All, All-map, All-append, All-update}
use licensing_master.Base.Keys.{Absent, Unique-append, Unique-update}
use licensing_master.Tables.{BatchToken, Device}
use licensing_master.Service.Accounting.{Accounted, IsKnown, TokenAccounted, booked, is_via}
use licensing_master.Service.Accounting.Steps.{IsKnown-le}

-- Nothing is booked against a token that does not exist yet.
booked_fresh :
    (s k : ℕ) (ds : List Device)
    → s ≤ k
    → All (λ (d : Device). IsKnown s d.activated_via) ds
    → booked k ds ≡ 0
unfolding booked
booked_fresh s k [] le h = refl
booked_fresh s k (d ∷ ds) le h =
    ground (arith, booked_fresh s k ds le h.1, not_via d.activated_via h.0)
  where
    not_via : (o : Option ℕ) → IsKnown s o → is_via k o ≡ false
    not_via none p = refl
    not_via (some j) p = ground arith

Absent-fresh :
    (ds : List Device) (s : ℕ) (ts : List BatchToken)
    → All (TokenAccounted ds s) ts
    → Absent (λ (t : BatchToken). t.batch_token_id) s ts
Absent-fresh ds s ts h =
    All-map (TokenAccounted ds s) (λ t. (t.batch_token_id == s) ≡ false) ts (λ t p. ground arith) h

module _ (ts : List BatchToken) (ds : List Device) (s : ℕ) (h : Accounted ts ds s) where
  -- A token with no seat taken may join under the next id.
  pub Accounted-insert :
      (row : BatchToken)
      → row.batch_token_id ≡ s
      → row.seats_consumed ≡ 0
      → Accounted (ts ++ row ∷ []) ds (suc s)
  Accounted-insert row id unused = record {
    tokens_unique =
        Unique-append (λ (t : BatchToken). t.batch_token_id) ts row h.tokens_unique
          (rw id (Absent-fresh ds s ts h.tokens_accounted));
    devices_unique = h.devices_unique;
    tokens_accounted =
        All-append (TokenAccounted ds (suc s)) ts (row ∷ [])
          (All-map (TokenAccounted ds s) (TokenAccounted ds (suc s)) ts (λ t p. ground arith)
            h.tokens_accounted)
          (
            ground (arith, booked_fresh s s ds (omega arith) h.devices_known, h.serial_positive),
            tt,
          );
    devices_known =
        All-map (λ (d : Device). IsKnown s d.activated_via)
          (λ (d : Device). IsKnown (suc s) d.activated_via) ds
          (λ d p. IsKnown-le s (suc s) d.activated_via (omega arith) p) h.devices_known;
    serial_positive = omega arith;
  }

  -- A change of tokens that leaves their figures.
  pub Accounted-mark :
      (p : BatchToken → Bool) (f : BatchToken → BatchToken)
      → ((t : BatchToken) → (f t).batch_token_id ≡ t.batch_token_id)
      → ((t : BatchToken) → (f t).seats_consumed ≡ t.seats_consumed)
      → ((t : BatchToken) → (f t).quota ≡ t.quota)
      → Accounted (update p f ts) ds s
  Accounted-mark p f id seats quota = record {
    tokens_unique = Unique-update (λ (t : BatchToken). t.batch_token_id) p f ts id h.tokens_unique;
    devices_unique = h.devices_unique;
    tokens_accounted =
        All-update (TokenAccounted ds s) (TokenAccounted ds s) p f ts
          (λ t q _. ground (arith, id t, seats t, quota t)) (λ t q _. q) h.tokens_accounted;
    devices_known = h.devices_known;
    serial_positive = h.serial_positive;
  }
