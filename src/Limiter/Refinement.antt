-- ===== src/Limiter/Refinement.antt =====
-- The limiter of licensing-master/src/ratelimit.py keeps what it promises while it has room for the keys.
use licensing_master.Base.{
  ℕ, suc, ◌+◌, ◌-◌, ◌≤◌, ◌<◌, ◌≡◌, refl, ap, ◌∙◌, String, ◌==◌, string_eq, Bool, true, false,
  Option, none, some, List, [], ◌∷◌, ◌++◌, leb, Bool-cases, inl, inr, arith, eq_iff, if◌then◌else◌,
  if-both,
}
use licensing_master.Base.Rows.{All, All-append, All-map}
use licensing_master.Limiter.{
  Limiter, lookup, length, ceil_seconds, clear, retry_until, retry_after, drop_old, hits_of,
  make_room, count_failure, record_failure,
}
use licensing_master.Limiter.Lockouts.{drop_old-like}
use licensing_master.Limiter.Dicts.{IsDict, lookup-put_any, put-IsDict, length-put, length-pop}
use licensing_master.Limiter.Windows.{IsAscending-append, recent, drop_old-append}
use licensing_master.Limiter.Specification.{
  Call, IsInOrder, answers, clean, Accounts, set_account, failed, asked_until, promised,
}
use licensing_master.Limiter.Accounts.{
  Refines, Tracks-later, Refines-later, Refines-same, Refines-clear, or_nil,
}

module _ (rules : Limiter) where
  -- the counting of a failure
  module _ (l : Limiter) (s : Accounts) (now at : ℕ) (key : String) (r : Refines rules l s now)
      (late : now ≤ at) where
    dropped :
        drop_old l at (hits_of key l ++ at ∷ []) ≡ recent rules at ((s key).failures ++ at ∷ [])
    dropped =
        let t = r.tracks key in
        let early : t.since ≤ at = let e = t.early in omega arith in
        drop_old-like rules l at (hits_of key l ++ at ∷ []) r.like
        ∙ ap (λ hits. drop_old rules at (hits ++ at ∷ [])) t.hits
        ∙ drop_old-append rules t.since at (s key).failures early t.ascending t.bounded

    hits_of-count :
        (k : String)
        → hits_of k (count_failure key at l)
          ≡ (if key == k then recent rules at ((s key).failures ++ at ∷ []) else hits_of k l)
    unfolding count_failure
    hits_of-count k = ap or_nil (lookup-put_any key k _ l.failures) ∙ rw dropped (branch (key == k))
      where
        branch :
            (b : Bool)
            → or_nil (
                if b
                then some (recent rules at ((s key).failures ++ at ∷ []))
                else lookup k l.failures)
              ≡ (if b then recent rules at ((s key).failures ++ at ∷ []) else hits_of k l)
        branch true = refl
        branch false = refl

    until-count :
        (k : String)
        → lookup k (count_failure key at l).locked_until
          ≡ (if key == k then (failed rules at (s key)).until else lookup k l.locked_until)
    unfolding count_failure
    until-count k =
        let t = r.tracks key in
        rw (dropped, r.like.failures_allowed, r.like.lockout)
          (elim (Bool-cases
            (leb rules.max_failures (length (recent rules at ((s key).failures ++ at ∷ []))))) [
              | inl full ↦ rw full (lookup-put_any key k _ l.locked_until)
              | inr few ↦ elim (Bool-cases (key == k)) [
                | inl same ↦ let e : key ≡ k = (eq_iff key k).0 same in rw (few, same, ← e) t.until
                | inr other ↦ rw (few, other) refl
              ]
            ])

    Refines-count :
        Refines rules (count_failure key at l) (set_account key (failed rules at (s key)) s) at
    Refines-count = record {
      like =
          unfold count_failure in
          record {
            failures_allowed = r.like.failures_allowed;
            window = r.like.window;
            lockout = r.like.lockout;
            keys = r.like.keys;
          };
      failures_dict = unfold count_failure in put-IsDict key _ l.failures r.failures_dict;
      locks_dict =
          unfold count_failure in
          if-both IsDict (leb l.max_failures (length (drop_old l at (hits_of key l ++ at ∷ [])))) _
            _ (λ _. put-IsDict key _ l.locked_until r.locks_dict) (λ _. r.locks_dict);
      tracks = λ k. elim (Bool-cases (key == k)) [
        | inl same ↦ rw same (
            let t = r.tracks key in
            let early : t.since ≤ at = let e = t.early in omega arith in
            let bounded : All (λ y. y ≤ at) (s key).failures =
              All-map (λ y. y ≤ t.since) (λ y. y ≤ at) (s key).failures (λ y h. omega arith)
                t.bounded in
            record {
              since = at;
              early = omega arith;
              ascending = IsAscending-append (s key).failures at t.ascending bounded;
              bounded =
                  All-append (λ y. y ≤ at) (s key).failures (at ∷ []) bounded (omega arith, tt);
              hits = rw (hits_of-count k, same) refl;
              until = rw (until-count k, same) refl;
            })
        | inr other ↦ rw other (
            let t = Tracks-later rules l now at k (s k) late (r.tracks k) in
            record {
              since = t.since;
              early = t.early;
              ascending = t.ascending;
              bounded = t.bounded;
              hits = rw (hits_of-count k, other) t.hits;
              until = rw (until-count k, other) t.until;
            })
      ];
    }

  record_failure-roomy :
      (key : String) (at : ℕ) (l : Limiter)
      → length l.failures < l.max_keys
      → record_failure key at l ≡ count_failure key at l
  unfolding record_failure make_room
  record_failure-roomy key at l room =
      let few : leb l.max_keys (length l.failures) ≡ false = ground arith in rw few refl

  length-count :
      (key : String) (at : ℕ) (l : Limiter)
      → length (count_failure key at l).failures ≤ suc (length l.failures)
  unfolding count_failure
  length-count key at l = length-put key _ l.failures

  -- one question, by the end of the lockout; `rest` is what holds of the calls after it
  ask-answers :
      (o : Option ℕ) (key : String) (at : ℕ) (l : Limiter) (s : Accounts) (calls : List Call)
      → Refines rules l s at
      → ((m : Limiter) (t : Accounts)
          → Refines rules m t at
          → length m.failures ≤ length l.failures
          → answers m calls ≡ promised rules t calls)
      → ◌≡◌ {A = List ℕ} ((retry_until o key at l).0 ∷ answers (retry_until o key at l).1 calls) (
          (asked_until rules at (s key) o).0
          ∷ promised rules (set_account key (asked_until rules at (s key) o).1 s) calls)
  unfolding retry_until
  ask-answers none key at l s calls r rest =
      ap (λ xs. 0 ∷ xs) (rest l _ (Refines-same rules l s at key r) (omega arith))
  ask-answers (some until) key at l s calls r rest = elim (Bool-cases (leb until at)) [
    | inl over ↦ rw over (
        ap (λ xs. 0 ∷ xs)
          (rest (clear key l) _ (Refines-clear rules l s at key r) (length-pop key l.failures)))
    | inr running ↦ rw running (
        ap (λ xs. ceil_seconds (until - at) ∷ xs)
          (rest l _ (Refines-same rules l s at key r) (omega arith)))
  ]

  pub answers-promised :
      (calls : List Call) (l : Limiter) (s : Accounts) (now : ℕ)
      → Refines rules l s now
      → IsInOrder now calls
      → length l.failures + length calls ≤ rules.max_keys
      → answers l calls ≡ promised rules s calls
  unfolding answers promised retry_after
  answers-promised [] l s now r order room = refl
  answers-promised (Call.fail key at ∷ calls) l s now r order room =
      let keys = r.like.keys in
      let roomy = record_failure-roomy key at l (omega arith) in
      let longer = length-count key at l in
      rw roomy (
        answers-promised calls (count_failure key at l) _ at
          (Refines-count l s now at key r order.0) order.1 (omega arith))
  answers-promised (Call.ask key at ∷ calls) l s now r order room =
      let t = r.tracks key in
      rw t.until (
        ask-answers (s key).until key at l s calls (Refines-later rules l s now at order.0 r)
          (λ m u r' shorter. answers-promised calls m u at r' order.1 (omega arith)))
  answers-promised (Call.forgive key ∷ calls) l s now r order room =
      let shorter = length-pop key l.failures in
      answers-promised calls (clear key l) _ now (Refines-clear rules l s now key r) order
        (omega arith)

-- A new limiter answers every sequence of failures, questions and resets, in the order of its clock, as is
-- promised key by key: after a failure a key is locked out exactly if enough of its failures lie in the
-- window, and nothing that happens to another key changes that. The calls are no more than the keys
-- that the limiter may track.
pub answers_lem :
    (l : Limiter) (calls : List Call)
    → l.failures ≡ []
    → l.locked_until ≡ []
    → IsInOrder 0 calls
    → length calls ≤ l.max_keys
    → answers l calls ≡ promised l (λ _. clean) calls
answers_lem l calls no_failures no_locks order room =
    answers-promised l calls l (λ _. clean) 0
      (record {
        like = record { failures_allowed = refl; window = refl; lockout = refl; keys = refl };
        failures_dict = rw no_failures tt;
        locks_dict = rw no_locks tt;
        tracks = λ key. record {
          since = 0;
          early = omega arith;
          ascending = tt;
          bounded = tt;
          hits = rw no_failures refl;
          until = rw no_locks refl;
        };
      })
      order (rw no_failures (omega arith))
