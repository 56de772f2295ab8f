-- ===== src/Signer/KeyOrder.antt =====
-- The order of texts by which `json.dumps(…, sort_keys=True)` sorts keys, in licensing-master/src/signer.py.
use Prim.Native.Nat.{Ordering, compare as compare_ℕ}
use Prim.Native.Char.{Char, code}
use Prim.Native.String.compare
use Prim.Native.String.{compare}
use text.Mathlib.TextEquality.{codes_equal}
use text.Mathlib.TextPositions.{compare_self}
use licensing_master.Base.{
  String, ◌≡◌, refl, ap, ◌∙◌, Bool, true, false, ltb, ◌&&◌, ◌||◌, ◌==◌, nat_eq, arith,
}

abbrev pub is_gt : Ordering → Bool
is_gt Ordering.gt = true
is_gt _ = false

-- `s > t`
abbrev pub is_after : String → String → Bool
is_after s t = is_gt (compare s t)

is_after-cons :
    (c d : Char) (s t : String)
    → is_after (String.◌∷◌ c s) (String.◌∷◌ d t)
      ≡ (ltb (code d) (code c) || (code c == code d && is_after s t))
is_after-cons c d s t = rw (compare.cons-cons c d s t) (ground arith)

is_after_empty : (t : String) → is_after String.[] t ≡ false
is_after_empty String.[] = refl
is_after_empty (String.◌∷◌ d t) = rw (compare.nil-cons d t) refl

cons-is_after : (c : Char) (s : String) → is_after (String.◌∷◌ c s) String.[] ≡ true
cons-is_after c s = rw (compare.cons-nil c s) refl

pub is_after_asym : (s t : String) → is_after s t ≡ true → is_after t s ≡ false
is_after_asym String.[] t h = let e = is_after_empty t in absurd (ground arith)
is_after_asym (String.◌∷◌ c s) String.[] h = is_after_empty (String.◌∷◌ c s)
is_after_asym (String.◌∷◌ c s) (String.◌∷◌ d t) h =
    let h' = rw (is_after-cons c d s t) at h in
    rw (is_after-cons d c t s) (ground (arith, is_after_asym s t))

pub is_after_trans :
    (s t u : String) → is_after s t ≡ true → is_after t u ≡ true → is_after s u ≡ true
is_after_trans String.[] t u h k = let e = is_after_empty t in absurd (ground arith)
is_after_trans s String.[] u h k = let e = is_after_empty u in absurd (ground arith)
is_after_trans (String.◌∷◌ c s) t String.[] h k = cons-is_after c s
is_after_trans (String.◌∷◌ c s) (String.◌∷◌ d t) (String.◌∷◌ b u) h k =
    let h' = rw (is_after-cons c d s t) at h in
    let k' = rw (is_after-cons d b t u) at k in
    rw (is_after-cons c b s u) (ground (arith, is_after_trans s t u))

pub is_after_total : (s t : String) → is_after s t ≡ false → is_after t s ≡ false → s ≡ t
is_after_total String.[] String.[] h k = refl
is_after_total String.[] (String.◌∷◌ d t) h k = let e = cons-is_after d t in absurd (ground arith)
is_after_total (String.◌∷◌ c s) String.[] h k = let e = cons-is_after c s in absurd (ground arith)
is_after_total (String.◌∷◌ c s) (String.◌∷◌ d t) h k =
    let h' = rw (is_after-cons c d s t) at h in
    let k' = rw (is_after-cons d c t s) at k in
    let codes : code c ≡ code d = ground arith in
    let same : c ≡ d =
      codes_equal c d (ap (λ n. compare_ℕ n (code d)) codes ∙ compare_self (code d)) in
    let rest : s ≡ t = is_after_total s t (ground arith) (ground arith) in rw (same, rest) refl
