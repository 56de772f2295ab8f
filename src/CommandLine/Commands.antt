-- ===== src/CommandLine/Commands.antt =====
-- The commands that `_build_parser` of licensing-master/src/cli.py knows.
use licensing_master.Base.{String}

-- The commands with their `--email`, and the two passwords that are typed.
pub data Command : Type 0 where
  create_admin reset_password : String → String → String → Command
  reset_totp disable_admin enable_admin revoke_sessions : String → Command
  list_admins : Command
