-- ===== src/Signer/Permutations.antt =====
-- The canonical JSON of licensing-master/src/signer.py does not depend on the order in which a payload's
-- members were put in.
use mathlib.Core.Path.{subst}
use mathlib.Core.HLevel.{hedberg}
use mathlib.Core.Logic.{∥∥₁_elim}
use mathlib.Core.List.{Perm, Permᴰ}
use licensing_master.Base.{
  String, ◌≡◌, refl, ap, sym, ◌∙◌, ◌==◌, ==_flip, string_eq, true, false, [], ◌∷◌, arith,
  Bool-cases, inl, inr, if◌then◌else◌, eq_iff,
}
use licensing_master.Base.Rows.{All}
use licensing_master.Base.Keys.{Unique, Absent}
use licensing_master.Tables.{Payload, Value}
use licensing_master.Exec.{Env, World}
use licensing_master.Signer.{
  Members, insert_member, sort_keys, write_members, dumps, scalars, canonical, sign_payload,
}
use licensing_master.Signer.KeyOrder.{is_after, is_after_asym, is_after_trans, is_after_total}

insert-nil : (m : String × String) → insert_member m [] ≡ m ∷ []
unfolding insert_member
insert-nil m = refl

insert-cons :
    (m x : String × String) (xs : Members)
    → insert_member m (x ∷ xs) ≡ (if is_after x.0 m.0 then m ∷ x ∷ xs else x ∷ insert_member m xs)
unfolding insert_member
insert-cons m x xs = ground arith

-- two members, the one with the lesser key first
insert-after :
    (a b : String × String) (xs : Members)
    → is_after b.0 a.0 ≡ true
    → insert_member a (insert_member b xs) ≡ insert_member b (insert_member a xs)
insert-after a b [] later =
    let earlier = is_after_asym b.0 a.0 later in
    rw (insert-nil a, insert-nil b, insert-cons a b [], insert-cons b a [], later, earlier)
      (rw (insert-nil b) refl)
insert-after a b (x ∷ xs) later =
    let earlier = is_after_asym b.0 a.0 later in
    rw (insert-cons a x xs, insert-cons b x xs)
      (elim (Bool-cases (is_after x.0 a.0)) [
        | inl x_a ↦ elim (Bool-cases (is_after x.0 b.0)) [
          | inl x_b ↦
              rw
                (
                  x_a,
                  x_b,
                  insert-cons a b (x ∷ xs),
                  later,
                  insert-cons b a (x ∷ xs),
                  earlier,
                  insert-cons b x xs,
                  x_b,
                )
                refl
          | inr not_b ↦
              rw
                (
                  x_a,
                  not_b,
                  insert-cons a x (insert_member b xs),
                  x_a,
                  insert-cons b a (x ∷ xs),
                  earlier,
                  insert-cons b x xs,
                  not_b,
                )
                refl
        ]
        | inr not_a ↦ elim (Bool-cases (is_after x.0 b.0)) [
          | inl x_b ↦ let e = is_after_trans x.0 b.0 a.0 x_b later in absurd (ground arith)
          | inr not_b ↦
              rw
                (
                  not_a,
                  not_b,
                  insert-cons a x (insert_member b xs),
                  not_a,
                  insert-cons b x (insert_member a xs),
                  not_b,
                  insert-after a b xs later,
                )
                refl
        ]
      ])

insert-swap :
    (a b : String × String) (xs : Members)
    → (a.0 == b.0) ≡ false
    → insert_member a (insert_member b xs) ≡ insert_member b (insert_member a xs)
insert-swap a b xs apart = elim (Bool-cases (is_after b.0 a.0)) [
  | inl later ↦ insert-after a b xs later
  | inr not_b ↦ elim (Bool-cases (is_after a.0 b.0)) [
    | inl later ↦ sym (insert-after b a xs later)
    | inr not_a ↦
        let same : a.0 ≡ b.0 = is_after_total a.0 b.0 not_a not_b in
        absurd (ground (arith, eq_iff a.0 b.0))
  ]
]

abbrev key : String × String → String
key m = m.0

All-Perm : (P : String × String → Type 0) {xs ys : Members} → Permᴰ xs ys → All P xs → All P ys
All-Perm P Permᴰ.nil h = tt
All-Perm P (Permᴰ.cons e d) h = (rw (sym e) h.0, All-Perm P d h.1)
All-Perm P (Permᴰ.swap e f) h = (rw (sym f) h.1.0, (rw (sym e) h.0, h.1.1))
All-Perm P (Permᴰ.trans d f) h = All-Perm P f (All-Perm P d h)

Unique-Perm : {xs ys : Members} → Permᴰ xs ys → Unique key xs → Unique key ys
Unique-Perm Permᴰ.nil u = tt
Unique-Perm (Permᴰ.cons {b = b} e d) u = (All-Perm _ d (rw (sym e) u.0), Unique-Perm d u.1)
Unique-Perm (Permᴰ.swap {a = a} {b = b} {a' = a'} {l = l} e f) u =
    subst (λ y. Unique key (a' ∷ y ∷ l)) e
      (subst (λ x. Unique key (x ∷ a ∷ l)) f ((==_flip a.0 b.0 u.0.0, u.1.0), (u.0.1, u.1.1)))
Unique-Perm (Permᴰ.trans d f) u = Unique-Perm f (Unique-Perm d u)

sort_keys-Perm : {xs ys : Members} → Permᴰ xs ys → Unique key xs → sort_keys xs ≡ sort_keys ys
unfolding sort_keys
sort_keys-Perm Permᴰ.nil u = refl
sort_keys-Perm (Permᴰ.cons {b = b} e d) u = rw (e, sort_keys-Perm d u.1) refl
sort_keys-Perm (Permᴰ.swap {a = a} {b = b} {l = l} e f) u =
    rw (sym e, sym f) (insert-swap a b (sort_keys l) (==_flip a.0 b.0 u.0.0))
sort_keys-Perm (Permᴰ.trans d f) u = sort_keys-Perm d u ∙ sort_keys-Perm f (Unique-Perm d u)

text_set : (s t : String) → IsProp (s ≡ t)
text_set = hedberg (λ x y. elim (Bool-cases (x == y)) [
  | inl same ↦ yes ((eq_iff x y).0 same)
  | inr apart ↦ no (λ e. ground (arith, eq_iff x y))
])

scalars-Perm : (env : Env) {p q : Payload} → Permᴰ p q → Permᴰ (scalars env p) (scalars env q)
unfolding scalars
scalars-Perm env Permᴰ.nil = Permᴰ.nil
scalars-Perm env (Permᴰ.cons e d) =
    Permᴰ.cons (ap (λ (m : String × Value). (m.0, env.json_scalar m.1)) e) (scalars-Perm env d)
scalars-Perm env (Permᴰ.swap e f) =
    Permᴰ.swap (ap (λ (m : String × Value). (m.0, env.json_scalar m.1)) e)
      (ap (λ (m : String × Value). (m.0, env.json_scalar m.1)) f)
scalars-Perm env (Permᴰ.trans d f) = Permᴰ.trans (scalars-Perm env d) (scalars-Perm env f)

abbrev pub member_key : String × Value → String
member_key m = m.0

scalars-Absent :
    (env : Env) (k : String) (p : Payload) → Absent member_key k p → Absent key k (scalars env p)
unfolding scalars
scalars-Absent env k [] h = tt
scalars-Absent env k (m ∷ p) h = (h.0, scalars-Absent env k p h.1)

scalars-Unique : (env : Env) (p : Payload) → Unique member_key p → Unique key (scalars env p)
unfolding scalars
scalars-Unique env [] u = tt
scalars-Unique env (m ∷ p) u = (scalars-Absent env m.0 p u.0, scalars-Unique env p u.1)

-- Two payloads with the same members in any order, no key twice, have the same canonical text, and so
-- the same signature.
pub canonical-Perm :
    (env : Env) (p q : Payload)
    → Perm p q
    → Unique member_key p
    → (canonical env p ≡ canonical env q)
      × ((w : World) → sign_payload env p w ≡ sign_payload env q w)
canonical-Perm env p q same unique =
    let text : canonical env p ≡ canonical env q = ∥∥₁_elim same (text_set _ _) (λ d. texts d) in
    (text, λ w. unfold sign_payload in rw text refl)
  where
    texts : Permᴰ p q → canonical env p ≡ canonical env q
    texts d =
        unfold canonical dumps in
        ap (write_members env) (sort_keys-Perm (scalars-Perm env d) (scalars-Unique env p unique))
