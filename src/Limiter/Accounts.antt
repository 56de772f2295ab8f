-- ===== src/Limiter/Accounts.antt =====
-- The dictionaries of the limiter of licensing-master/src/ratelimit.py stand for an account of each key.
use licensing_master.Base.{
  ℕ, ◌≤◌, ◌≡◌, refl, ap, ◌∙◌, String, ◌==◌, string_eq, Bool, true, false, Option, none, some, List,
  [], Bool-cases, inl, inr, arith, eq_iff, if◌then◌else◌,
}
use licensing_master.Base.Rows.{All}
use licensing_master.Limiter.{Limiter, lookup, clear, hits_of}
use licensing_master.Limiter.Room.{IsLike}
use licensing_master.Limiter.Dicts.{IsDict, lookup-pop, pop-IsDict}
use licensing_master.Limiter.Windows.{IsAscending, recent}
use licensing_master.Limiter.Specification.{Account, clean, Accounts, set_account}

abbrev pub or_nil : Option (List ℕ) → List ℕ
or_nil o = elim o [ none ↦ [] | some hits ↦ hits ]

module _ (rules : Limiter) where
  -- the limiter's entries for the key stand for the account: the deque has the failures that were recent
  -- when the last one was recorded
  pub record Tracks (l : Limiter) (now : ℕ) (key : String) (a : Account) : Type 0 where
    pub since : ℕ
    pub early : since ≤ now
    pub ascending : IsAscending a.failures
    pub bounded : All (λ y. y ≤ since) a.failures
    pub hits : hits_of key l ≡ recent rules since a.failures
    pub until : lookup key l.locked_until ≡ a.until

  pub record Refines (l : Limiter) (s : Accounts) (now : ℕ) : Type 0 where
    pub like : IsLike rules l
    pub failures_dict : IsDict l.failures
    pub locks_dict : IsDict l.locked_until
    pub tracks : (key : String) → Tracks l now key (s key)

  pub Tracks-later :
      (l : Limiter) (now at : ℕ) (key : String) (a : Account)
      → now ≤ at
      → Tracks l now key a
      → Tracks l at key a
  Tracks-later l now at key a h t = record {
    since = t.since;
    early = let e = t.early in omega arith;
    ascending = t.ascending;
    bounded = t.bounded;
    hits = t.hits;
    until = t.until;
  }

  pub Refines-later :
      (l : Limiter) (s : Accounts) (now at : ℕ) → now ≤ at → Refines l s now → Refines l s at
  Refines-later l s now at h r = record {
    like = r.like;
    failures_dict = r.failures_dict;
    locks_dict = r.locks_dict;
    tracks = λ key. Tracks-later l now at key (s key) h (r.tracks key);
  }

  pub Refines-same :
      (l : Limiter) (s : Accounts) (now : ℕ) (key : String)
      → Refines l s now
      → Refines l (set_account key (s key) s) now
  Refines-same l s now key r = record {
    like = r.like;
    failures_dict = r.failures_dict;
    locks_dict = r.locks_dict;
    tracks = λ k. elim (Bool-cases (key == k)) [
      | inl same ↦ let e : key ≡ k = (eq_iff key k).0 same in rw (same, e) (r.tracks k)
      | inr other ↦ rw other (r.tracks k)
    ];
  }

  hits_of-pop :
      (key k : String) (l : Limiter)
      → IsDict l.failures
      → hits_of k (clear key l) ≡ (if key == k then [] else hits_of k l)
  hits_of-pop key k l h = ap or_nil (lookup-pop key k l.failures h) ∙ branch (key == k)
    where
      branch :
          (b : Bool)
          → or_nil (if b then none else lookup k l.failures) ≡ (if b then [] else hits_of k l)
      branch true = refl
      branch false = refl

  pub Refines-clear :
      (l : Limiter) (s : Accounts) (now : ℕ) (key : String)
      → Refines l s now
      → Refines (clear key l) (set_account key clean s) now
  Refines-clear l s now key r = record {
    like = record {
      failures_allowed = r.like.failures_allowed;
      window = r.like.window;
      lockout = r.like.lockout;
      keys = r.like.keys;
    };
    failures_dict = pop-IsDict key l.failures r.failures_dict;
    locks_dict = pop-IsDict key l.locked_until r.locks_dict;
    tracks = λ k. elim (Bool-cases (key == k)) [
      | inl same ↦ rw same (record {
        since = now;
        early = omega arith;
        ascending = tt;
        bounded = tt;
        hits = rw (hits_of-pop key k l r.failures_dict, same) refl;
        until = rw (lookup-pop key k l.locked_until r.locks_dict, same) refl;
      })
      | inr other ↦ rw other (
          let t = r.tracks k in
          record {
            since = t.since;
            early = t.early;
            ascending = t.ascending;
            bounded = t.bounded;
            hits = rw (hits_of-pop key k l r.failures_dict, other) t.hits;
            until = rw (lookup-pop key k l.locked_until r.locks_dict, other) t.until;
          })
    ];
  }
