-- ===== src/CommandLine/Exits.antt =====
-- How a command of licensing-master/src/cli.py ends, and what it has written then.
use licensing_master.Base.{ℕ, ◌≡◌, refl, ◌⊎◌, inl, inr, String, ◌==◌, string_eq, Bool-cases}
use licensing_master.Exec.{Exec, World, Result, ok, err, transaction, ◌>>=◌}
use licensing_master.AdminAuth.{AuthEnv}
use licensing_master.CommandLine.{
  Command, Output, Exit, exit_of, shown, prompt_new_password, run_command, main,
}

-- the command has ended with 0, or the database is as it was
abbrev pub IsAtomic : World → Exit × World → Type 0
IsAtomic w p = ((out : Output) × (p.0 ≡ Exit.exited 0 out)) ⊎ (p.1.db ≡ w.db)

abbrev IsAtomicResult : World → Result Output × World → Type 0
IsAtomicResult w p = ((out : Output) × (p.0 ≡ ok out)) ⊎ (p.1.db ≡ w.db)

exit-IsAtomic :
    (w : World) (p : Result Output × World) → IsAtomicResult w p → IsAtomic w (exit_of p.0, p.1)
exit-IsAtomic w (r, v) (inl (out, e)) = inl (out, rw e refl)
exit-IsAtomic w (r, v) (inr kept) = inr kept

module _ {A : Type 0} (f : A → Output) where
  settled : (w : World) (p : Result A × World) → IsAtomicResult w (shown f (transaction (λ _. p)) w)
  unfolding transaction ◌>>=◌
  settled w (ok a, v) = inl (f a, refl)
  settled w (err e, v) = inr refl

  shown-IsAtomic : (m : Exec A) (w : World) → IsAtomicResult w (shown f (transaction m) w)
  unfolding transaction ◌>>=◌
  shown-IsAtomic m w = settled w (m w)

  prompted-IsAtomic :
      (first repeated : String) (m : String → Exec A) (w : World)
      → IsAtomicResult w (
          (prompt_new_password first repeated >>= λ password. shown f (transaction (m password))) w)
  unfolding prompt_new_password ◌>>=◌
  prompted-IsAtomic first repeated m w = elim (Bool-cases (repeated == first)) [
    | inl same ↦ rw same (shown-IsAtomic (m first) w)
    | inr differ ↦ rw differ (inr refl)
  ]

-- Whatever the command, the process ends with 0, or nothing has been written: not by a wrong repetition
-- of the password, nor by an account that is not there, nor by any other error.
pub main-IsAtomic :
    (auth : AuthEnv) (argon2_hash : ℕ → String → String) (c : Command) (w : World)
    → IsAtomic w (main auth argon2_hash c w)
unfolding main
main-IsAtomic auth argon2_hash c w = exit-IsAtomic w (run_command auth argon2_hash c w) (command c)
  where
    command : (c : Command) → IsAtomicResult w (run_command auth argon2_hash c w)
    command (Command.create_admin email first repeated) =
        unfold run_command in prompted-IsAtomic _ first repeated _ w
    command (Command.reset_password email first repeated) =
        unfold run_command in prompted-IsAtomic _ first repeated _ w
    command (Command.reset_totp email) = unfold run_command in shown-IsAtomic _ _ w
    command (Command.disable_admin email) = unfold run_command in shown-IsAtomic _ _ w
    command (Command.enable_admin email) = unfold run_command in shown-IsAtomic _ _ w
    command (Command.revoke_sessions email) = unfold run_command in shown-IsAtomic _ _ w
    command Command.list_admins = unfold run_command in shown-IsAtomic _ _ w
