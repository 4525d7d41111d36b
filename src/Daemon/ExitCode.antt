-- ===== src/Daemon/ExitCode.antt =====
-- cmd/service-discoverd/service-discoverd.go: the errors that end the daemon, and their codes.
use service_discover.Common.{ℕ, String, ◌<>◌}
use service_discover.Errors.{Error, error_text}

-- `ErrorWithExitCode`
pub record ErrorWithExitCode : Type 0 where
  pub log : String
  pub exit_code : ℕ

abbrev pub wrong_args : ℕ
wrong_args = 1001

abbrev pub user_stuff : ℕ
user_stuff = 1002

abbrev pub local_cfg : ℕ
local_cfg = 1003

abbrev pub ldap_error : ℕ
ldap_error = 1004

abbrev pub exec_error : ℕ
exec_error = 1005

abbrev pub read_main_json : ℕ
read_main_json = 1006

abbrev pub parse_main_json : ℕ
parse_main_json = 1007

abbrev pub parse_ports : ℕ
parse_ports = 1008

abbrev pub marshal_main_json : ℕ
marshal_main_json = 1009

abbrev pub write_main_json : ℕ
write_main_json = 1010

-- `&ErrorWithExitCode{Log: text + err.Error(), ExitCode: code}`
abbrev pub exit_with : ℕ → String → Error → ErrorWithExitCode
exit_with code text e = record { log = text <> error_text e; exit_code = code }

abbrev pub exit_plain : ℕ → String → ErrorWithExitCode
exit_plain code text = record { log = text; exit_code = code }
