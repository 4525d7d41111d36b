-- ===== src/Examples.antt =====
-- The theorems at concrete inputs, and a quiet world to run the programs in.
pub mod Daemons
pub mod Readers
pub mod Tokens
pub mod Setups
pub mod Directories
pub mod Files
pub mod Waits
pub mod Servers
pub mod Archives
pub mod Credentials
pub mod Elections
pub mod Openings
pub mod Commands
pub mod Interleavings
use service_discover.Common.{zero, String, false, true, Option, none, some, List, [], ◌∷◌}
use service_discover.Errors.{Result, ok, err, message}
use service_discover.World.{
  Call, Answer, Env, User, Group, Token, FileInfo, getuid, getenv, lookup_env, exit_process, log,
  print, executable, command_output, hostname, lookup_user, lookup_group, create_temp, read_file,
  net_interfaces, addr_resolver, lookup_ip, lookup_cname, lookup_host, lookup_addr, ldap_dial,
  ldap_search, consul_leader, consul_node_name, token_read, token_create, token_update, policy_read,
  token_list, dbus_close, unit_result, is_terminal, file_info, read_line, read_password, now, sleep,
  wait_or_deadline, time_over, random_bytes, armor_decode, read_message, tar_write,
}
use service_discover.Carbonio.Ldap.{Base64}
use service_discover.Carbonio.LocalConfig.{RawKey, LocalConfig}
use service_discover.Json.{Codec, Json, null}

abbrev a_token : Token
a_token = record { accessor_id = "a"; secret_id = "s"; description = ""; policies = [] }

-- Each file has its own name.
abbrev pub shown_file : String → FileInfo
shown_file path = record { name = path; size = 1; mode = 384 }

-- Every call succeeds, with as little as it can give; an LDAP server is there, but it is empty.
abbrev pub answer : (c : Call) → Answer c
answer getuid = 0
answer (getenv _) = ""
answer (lookup_env _) = none
answer (exit_process _) = tt
answer (log _) = tt
answer (print _) = tt
answer executable = ok "/usr/bin/x"
answer (command_output _ _) = ok ""
answer hostname = ok "host"
answer (lookup_user _) = ok (record { uid = "7"; gid = "8" })
answer (lookup_group _) = ok (record { gid = "8" })
answer (create_temp _ _) = ok "/tmp/x"
answer (read_file _) = ok ""
answer net_interfaces = ok []
answer (addr_resolver _) = ok []
answer (lookup_ip _) = ok []
answer (lookup_cname _) = ok "host."
answer (lookup_host _) = []
answer (lookup_addr _) = []
answer (ldap_dial _) = ok (some 1)
answer (ldap_search _ _ _ _) = ok []
answer consul_leader = ok "leader"
answer consul_node_name = ok "node"
answer (token_read _) = ok a_token
answer (token_create _) = ok a_token
answer (token_update _) = ok a_token
answer (policy_read _) = ok (some "policy-id")
answer (token_list _) = ok []
answer unit_result = "done"
answer dbus_close = tt
answer is_terminal = true
answer (file_info path) = ok (shown_file path)
answer read_line = ok ""
answer (read_password _) = ok ""
answer now = 0
answer (sleep _) = tt
answer (wait_or_deadline _) = true
answer (time_over _) = false
answer (random_bytes n) = ok (n, "")
answer (armor_decode _) = ok ""
answer (read_message _ _) = ok []
answer (tar_write _) = ok 0
answer _ = ok tt

abbrev pub quiet : Env
quiet = record { reply = λ h c. answer c }

abbrev pub plain_base64 : Base64
plain_base64 = record { encode = λ s. s; decode = ok }

abbrev pub no_json : Codec
no_json = record { parse = λ s. ok null; print = λ v. ok ""; print_indent = λ v. ok "" }

abbrev key : String → String → RawKey
key name value = record { name = name; value = value; text = "" }

-- A localconfig.xml with the required keys.
abbrev pub five_keys : List RawKey
five_keys =
    key "ldap_master_url" "ldap://a"
    ∷ key "ldap_url" "ldap://b"
    ∷ key "zimbra_ldap_userdn" "u"
    ∷ key "zimbra_ldap_password" "p"
    ∷ key "zimbra_server_hostname" "host"
    ∷ []

abbrev pub parse_five : String → Result (List RawKey)
parse_five s = ok five_keys
