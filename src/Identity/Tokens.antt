-- ===== src/Identity/Tokens.antt =====
-- A service token from its minting in licensing-master/src/service.py to the identity that
-- licensing-master/src/auth.py reads out of a request.
use Prim.Native.String.{◌++◌ as ◌++ˢ◌}
use licensing_master.Base.{
  ℕ, ◌≡◌, refl, String, ◌==◌, nat_eq, string_eq, ==_refl, Bool, true, not, ◌&&◌, none, some,
  is_some, List, [], ◌∷◌, arith, Bool-cases, inl, inr, fits,
}
use licensing_master.Base.Rows.{first, first-append}
use licensing_master.Tables.{Tenant, Product, ServiceToken}
use licensing_master.Exec.{Env, World, ok, gets, modify, next_serial, random_token}
use licensing_master.Exec.Succeeds.{Succeeds, Succeeds-then, raise_if-ok}
use licensing_master.Service.Rows.{tenant_row}
use licensing_master.Service.Outcomes.{tenant_row-ok, audit-ok}
use licensing_master.Service.Lifecycle.{admin_mint_service_token, token_name}
use licensing_master.Limiter.{Limiter, retry_after}
use licensing_master.Identity.{
  Headers, client_ip, is_token, identify, is_bearer, token_row, identity_of_row, service_identity,
  after_blank,
}

-- The token of a bearer header with a known row identifies that row's tenant.
pub service_identity-known :
    (mono : ℕ → ℕ) (env : Env) (h : Headers) (w : World) (l : Limiter) (header raw : String)
    (s : ServiceToken)
    → (retry_after (client_ip h) (mono 0) l).0 ≡ 0
    → h.authorization ≡ some header
    → is_bearer mono env (some header) ≡ true
    → after_blank header ≡ some raw
    → first (is_token env (env.strip raw)) w.service_tokens ≡ some s
    → service_identity mono env h w l ≡ (ok (identify s), (retry_after (client_ip h) (mono 0) l).1)
unfolding service_identity token_row identity_of_row
service_identity-known mono env h w l header raw s free shown bearer split found =
    rw (free, shown, bearer, split, found) refl

first-and_none :
    (p q : ServiceToken → Bool) (xs : List ServiceToken)
    → first p xs ≡ none
    → first (λ s. p s && q s) xs ≡ none
first-and_none p q [] h = refl
first-and_none p q (x ∷ xs) h = elim (Bool-cases (p x)) [
  | inl on ↦ absurd (ground arith)
  | inr off ↦ rw off (first-and_none p q xs (ground arith))
]

-- the token that a mint makes next
abbrev pub next_token : Env → World → String
next_token env w = "svc_" ++ˢ env.token_urlsafe w.asked

-- the row of the token, not revoked, for the tenant `k`
abbrev pub IsMinted : Env → ℕ → String → World → Type 0
IsMinted env k raw v =
    (s : ServiceToken) × (first (is_token env raw) v.service_tokens ≡ some s)
    × (s.tenant_id ≡ some k)

pub admin_mint_service_token-Minted :
    (env : Env) (actor : String) (k : ℕ) (name : String) (w : World) {t : Tenant} {p : Product}
    → first (λ (t : Tenant). t.tenant_id == k) w.tenants ≡ some t
    → first (λ (p : Product). p.product_id == t.product_id) w.products ≡ some p
    → first (λ (s : ServiceToken). s.token_hash == env.sha256 (next_token env w)) w.service_tokens
      ≡ none
    → fits 120 (token_name env name) ≡ true
    → fits 80 (env.show k) ≡ true
    → Succeeds
        (λ raw v. (raw ≡ next_token env w) × IsMinted env k raw v)
        (admin_mint_service_token env actor k name w)
unfolding admin_mint_service_token
admin_mint_service_token-Minted env actor k name w {t} {p} found owner fresh narrow short =
    Succeeds-then (tenant_row k) _ w _ (tenant_row-ok k w found owner) (
      Succeeds-then (random_token env) _ w _ refl (
        Succeeds-then next_serial _ _ _ refl (
          Succeeds-then (gets _) _ _ _ refl (
            Succeeds-then _ _ _ _
              (raise_if-ok {b = not (fits 120 (token_name env name))} _ _ (rw narrow refl))
              (Succeeds-then _ _ _ _
                (raise_if-ok
                  {b = is_some (
                    first (λ (s : ServiceToken). s.token_hash == env.sha256 (next_token env w))
                      w.service_tokens)}
                  _ _ (rw fresh refl))
                (Succeeds-then (modify _) _ _ _ refl (
                  Succeeds-then _ _ _ _ (audit-ok env _ _ _ _ _ _ refl short) (
                    refl,
                    (
                      _,
                      first-append (is_token env (next_token env w)) w.service_tokens _
                          (first-and_none _ (λ (s : ServiceToken). not s.is_revoked)
                            w.service_tokens fresh)
                          (rw (==_refl (env.sha256 (next_token env w))) refl),
                      refl,
                    ),
                  ))))))))
