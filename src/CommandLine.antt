-- ===== src/CommandLine.antt =====
-- The operator's command line of licensing-master/src/cli.py: one command, its transaction, its exit code.
-- Parsing of the arguments, the prompts and the printing are outside; what is typed at a prompt is an
-- argument, and what is printed is the outcome.
mod Commands
pub mod Exits
pub use Commands.{Command}
use licensing_master.Base.{
  ℕ, String, ◌==◌, string_eq, Bool, true, false, not, Option, none, some, List, if◌then◌else◌,
}
use licensing_master.Exec.{
  Exec, World, Result, ok, err, Error, admin_user_error, pure, raise_if, transaction, ◌>>=◌, ◌>>◌,
}
use licensing_master.AdminAuth.{AuthEnv}
use licensing_master.AdminAuth.Accounts.{
  AdminEntry, create_admin, reset_password, reset_totp, set_active, revoke_sessions, list_admins,
}

-- what a command prints
pub data Output : Type 0 where
  enrolled : String → String → Output
  done : Output
  revoked : ℕ → Output
  admins : List AdminEntry → Output

-- `_prompt_new_password`
unfoldable pub prompt_new_password : String → String → Exec String
prompt_new_password first repeated = do
  raise_if (not (repeated == first)) (admin_user_error "Passwords do not match")
  pure first

abbrev pub shown : {A : Type 0} → (A → Output) → Exec A → Exec Output
shown f m = m >>= λ a. pure (f a)

-- what is printed of a CreatedAdmin
abbrev pub enrolment : String × String → Output
enrolment (email, secret) = Output.enrolled email secret

-- How the process ends: what is printed and 0, the message on stderr and 1, or a traceback.
pub data Exit : Type 0 where
  exited : ℕ → Output → Exit
  complained : ℕ → String → Exit
  crashed : Error → Exit

abbrev pub exit_of : Result Output → Exit
exit_of (ok out) = Exit.exited 0 out
exit_of (err (admin_user_error message)) = Exit.complained 1 message
exit_of (err e) = Exit.crashed e

module _ (auth : AuthEnv) (argon2_hash : ℕ → String → String) where
  -- `disable_admin` and `enable_admin`
  unfoldable pub disable_admin : String → Exec (Unit {0})
  disable_admin email = set_active auth argon2_hash "cli" email false

  unfoldable pub enable_admin : String → Exec (Unit {0})
  enable_admin email = set_active auth argon2_hash "cli" email true

  -- The body of the `try` in `main`. The prompt comes before the transaction.
  unfoldable pub run_command : Command → Exec Output
  run_command (Command.create_admin email first repeated) = do
    password ← prompt_new_password first repeated
    shown enrolment (transaction (create_admin auth argon2_hash "cli" email password))
  run_command (Command.reset_password email first repeated) = do
    password ← prompt_new_password first repeated
    shown (λ _. Output.done) (transaction (reset_password auth argon2_hash "cli" email password))
  run_command (Command.reset_totp email) =
      shown enrolment (transaction (reset_totp auth argon2_hash "cli" email))
  run_command (Command.disable_admin email) =
      shown (λ _. Output.done) (transaction (disable_admin email))
  run_command (Command.enable_admin email) =
      shown (λ _. Output.done) (transaction (enable_admin email))
  run_command (Command.revoke_sessions email) =
      shown Output.revoked (transaction (revoke_sessions auth argon2_hash "cli" email))
  run_command Command.list_admins = shown Output.admins (transaction list_admins)

  -- `main`
  unfoldable pub main : Command → World → Exit × World
  main c w = let (r, w') = run_command c w in (exit_of r, w')
