-- ===== src/Service/BaseUrl/Origins.antt =====
-- What `_norm_base_url` of licensing-master/src/service.py returns outside development.
use Prim.Native.Char.{Char}
use Prim.Native.String.append
use Prim.Native.String.{◌++◌ as ◌++ˢ◌}
use text.Mathlib.Text.{starts_with}
use text.Mathlib.TextPositions.{starts_with-append}
use text.Mathlib.TextEquality.{starts_with_iff}
use text.Mathlib.TextLemmas.{append_assoc}
use mathlib.Core.Path.{subst}
use licensing_master.Base.{
  String, ◌≡◌, refl, ap, sym, ◌∙◌, ◌==◌, nat_eq, string_eq, Bool, true, false, not, ◌&&◌, ◌||◌,
  Option, none, some, if◌then◌else◌, arith, Bool-cases, inl, inr, eq_iff,
}
use licensing_master.Exec.{Env, World, Returns}
use licensing_master.Exec.Returns.{Returns-then, Returns-if, Returns-raise_if}
use licensing_master.Service.BaseUrl.{
  norm_base_url, norm_scheme, is_slash, rstrip_slash, remove_suffix, with_scheme, trim_path,
}

abbrev pub ends_in_slash : String → Bool
ends_in_slash String.[] = false
ends_in_slash (String.◌∷◌ c String.[]) = is_slash c
ends_in_slash (String.◌∷◌ _ (String.◌∷◌ d s)) = ends_in_slash (String.◌∷◌ d s)

abbrev starts_in_slash : String → Bool
starts_in_slash String.[] = true
starts_in_slash (String.◌∷◌ c _) = is_slash c

abbrev is_empty : String → Bool
is_empty String.[] = true
is_empty (String.◌∷◌ _ _) = false

cons-apart : (d : Char) (r : String) → String.◌∷◌ d r ≡ "" → ⊥
cons-apart d r e = let b : false ≡ true = ap is_empty e in cc

rstrip-ends : (s : String) → ends_in_slash (rstrip_slash s) ≡ false
unfolding rstrip_slash
rstrip-ends String.[] = refl
rstrip-ends (String.◌∷◌ c s) = step c (rstrip_slash s) (rstrip-ends s)
  where
    step :
        (c : Char) (rest : String)
        → ends_in_slash rest ≡ false
        → ends_in_slash (if is_slash c && rest == "" then String.[] else String.◌∷◌ c rest) ≡ false
    step c String.[] h = elim (Bool-cases (is_slash c)) [
      | inl on ↦ rw on refl
      | inr off ↦ rw off off
    ]
    step c (String.◌∷◌ d r) h = elim (Bool-cases (is_slash c)) [
      | inl on ↦ elim (Bool-cases (String.◌∷◌ d r == "")) [
        | inl empty ↦ absurd (cons-apart d r ((eq_iff (String.◌∷◌ d r) "").0 empty))
        | inr more ↦ rw (on, more) h
      ]
      | inr off ↦ rw off h
    ]

cons-rstrip :
    (c : Char) (s : String)
    → is_slash c ≡ false
    → rstrip_slash (String.◌∷◌ c s) ≡ String.◌∷◌ c (rstrip_slash s)
unfolding rstrip_slash
cons-rstrip c s h = rw h refl

cons-remove :
    (c : Char) (s : String)
    → is_slash c ≡ false
    → remove_suffix "/api/v1" (String.◌∷◌ c s) ≡ String.◌∷◌ c (remove_suffix "/api/v1" s)
unfolding remove_suffix
cons-remove c s h = elim (Bool-cases (String.◌∷◌ c s == "/api/v1")) [
  | inl same ↦
      let b : is_slash c ≡ true = ap starts_in_slash ((eq_iff (String.◌∷◌ c s) "/api/v1").0 same) in
      absurd (ground arith)
  | inr apart ↦ rw apart refl
]

abbrev no_slash : String → Bool
no_slash String.[] = true
no_slash (String.◌∷◌ c s) = not (is_slash c) && no_slash s

-- what passes over a character that is no slash passes over a text without one
pass :
    (f : String → String)
    → ((c : Char) (s : String) → is_slash c ≡ false → f (String.◌∷◌ c s) ≡ String.◌∷◌ c (f s))
    → (p s : String) → no_slash p ≡ true
    → f (p ++ˢ s) ≡ p ++ˢ f s
pass f k String.[] s h = ap f (append.nil s) ∙ sym (append.nil (f s))
pass f k (String.◌∷◌ c p) s h =
    ap f (append.cons c p s)
    ∙ k c (p ++ˢ s) (ground arith)
    ∙ ap (λ r. String.◌∷◌ c r) (pass f k p s (ground arith))
    ∙ sym (append.cons c p (f s))

trim-https : (r : String) → (s : String) × (trim_path ("https:" ++ˢ r) ≡ "https:" ++ˢ s)
unfolding trim_path
trim-https r = (
  rstrip_slash (remove_suffix "/api/v1" (rstrip_slash r)),
  ap (λ s. rstrip_slash (remove_suffix "/api/v1" s)) (pass rstrip_slash cons-rstrip "https:" r refl)
      ∙ ap rstrip_slash (pass (remove_suffix "/api/v1") cons-remove "https:" (rstrip_slash r) refl)
      ∙ pass rstrip_slash cons-rstrip "https:" (remove_suffix "/api/v1" (rstrip_slash r)) refl,
)

-- an https origin with no slash at its end
abbrev pub IsSecureUrl : String → Type 0
IsSecureUrl u = (starts_with u "https:" ≡ true) × (ends_in_slash u ≡ false)

trim_path-IsSecureUrl : (u : String) → starts_with u "https://" ≡ true → IsSecureUrl (trim_path u)
trim_path-IsSecureUrl u h =
    let (r, e) = (starts_with_iff u "https://").0 h in
    let (s, trimmed) = trim-https ("//" ++ˢ r) in
    let whole : "https:" ++ˢ ("//" ++ˢ r) ≡ u = sym (append_assoc "https:" "//" r) ∙ e in
    let is : trim_path u ≡ "https:" ++ˢ s = ap trim_path (sym whole) ∙ trimmed in
    (
      rw is (starts_with-append "https:" s),
      unfold trim_path in rstrip-ends (remove_suffix "/api/v1" (rstrip_slash u)),
    )

with_scheme-secure :
    (u : String)
    → starts_with (with_scheme u) "http://" ≡ false
    → starts_with (with_scheme u) "https://" ≡ true
unfolding with_scheme
with_scheme-secure u h = elim (Bool-cases (starts_with u "http://")) [
  | inl plain ↦ let bad : starts_with u "http://" ≡ false = rw plain at h in absurd (ground arith)
  | inr other ↦ elim (Bool-cases (starts_with u "https://")) [
    | inl secure ↦ rw (other, secure) secure
    | inr bare ↦ rw (other, bare) (starts_with-append "https://" u)
  ]
]

on_live : (b dev : Bool) → dev ≡ false → (b && not dev) ≡ false → b ≡ false
on_live b dev live h = ground arith

-- Outside development what is returned for a text is an https origin with no slash at its end.
pub norm_base_url-IsSecureUrl :
    (env : Env) (raw : Option String) (w : World)
    → env.is_dev ≡ false
    → Returns
        (λ o v. ((u : String) → o ≡ some u → IsSecureUrl u) × (v ≡ w))
        (norm_base_url env raw w)
unfolding norm_base_url norm_scheme
norm_base_url-IsSecureUrl env none w live = (λ u e. absurd (cc), refl)
norm_base_url-IsSecureUrl env (some raw) w live =
    Returns-if _ (raw == "" || env.strip raw == "") _ _ w (λ blank. (λ u e. absurd (cc), refl))
      (λ given. Returns-then _ _ _ _ w w (Returns-raise_if _ _ w) (λ _ secure. (
        λ u e.
            let plain : starts_with (with_scheme (env.strip raw)) "http://" ≡ false =
              on_live (starts_with (with_scheme (env.strip raw)) "http://") env.is_dev live
                secure in
            let same : trim_path (with_scheme (env.strip raw)) ≡ u = cc in
            subst IsSecureUrl same (
              trim_path-IsSecureUrl (with_scheme (env.strip raw))
                (with_scheme-secure (env.strip raw) plain)),
        refl,
      )))
