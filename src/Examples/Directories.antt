-- ===== src/Examples/Directories.antt =====
-- The theorems on LDAP and on the configuration of a node at concrete inputs.
use service_discover.Common.{
  String, ◌<>◌, leb, if◌then◌else◌, true, eq_iff, List, [], ◌∷◌, ◌≡◌, ◌≢◌, refl, arith,
}
use service_discover.Errors.{ok, err, message}
use service_discover.Json.{Codec, decode_string, string_field, unmarshal_string}
use service_discover.Text.{equal_fold}
use service_discover.World.{
  Call, Answer, Env, Entry, ldap_dial, ldap_bind, ldap_search, read_file, term_write,
  command_output, wait_or_deadline,
}
use service_discover.Prog.{returns, ◌>>◌, running}
use service_discover.Carbonio.Ldap.{
  LdapCredentials, change_add, connect, dial_first, urls_for, modify_enabled_services,
}
use service_discover.Carbonio.Ldap.Services.{Modified, modify_enabled_services-Modified}
use service_discover.Formatter.{plain}
use service_discover.Command.Credentials.{mutable_config}
use service_discover.Command.Config.{set_config, get_config, bind_address_name}
use service_discover.Command.Config.RoundTrip.{read_call, write_call, get-set_config}
use service_discover.Command.AclToken.Waiting.{waits}
use service_discover.Examples.{answer}

abbrev credentials : LdapCredentials
credentials = record {
  master_urls = "ldap://a" ∷ [];
  replica_urls = [];
  username = "u";
  password = "p";
}

abbrev server_entry : Entry
server_entry = record { dn = "uid=host"; attributes = [] }

abbrev reply_listed : (c : Call) → Answer c
reply_listed (ldap_search _ _ _ _) = ok (server_entry ∷ [])
reply_listed c = answer c

-- A directory that holds the server.
abbrev listed : Env
listed = record { reply = λ h c. reply_listed c }

abbrev bound : List Call
bound = ldap_bind 1 "u" "p" ∷ ldap_dial "ldap://a" ∷ []

connected : connect credentials true listed [] ≡ (returns 1, bound)
unfolding connect dial_first urls_for running
connected = refl

modify_enabled_services-Modified_example :
    Modified credentials "host" "service-discover" change_add listed [] bound 1 server_entry []
      (modify_enabled_services credentials "host" "service-discover" change_add listed [])
modify_enabled_services-Modified_example =
    modify_enabled_services-Modified credentials "host" "service-discover" change_add listed []
      bound 1 server_entry [] connected refl

-- Consul is not there before the first wait, and the deadline comes in the second.
abbrev reply_slow : (h : List Call) → (c : Call) → Answer c
reply_slow h (command_output _ _) =
    if leb 1 (waits h) then ok "{}" else err (message "connection refused")
reply_slow h (wait_or_deadline _) = leb 1 (waits h)
reply_slow h c = answer c

abbrev slow : Env
slow = record { reply = λ h c. reply_slow h c }

-- A codec that knows one configuration.
abbrev one_json : Codec
one_json = record {
  parse = λ s. ok (mutable_config "10.0.0.1");
  print = λ v. ok "";
  print_indent = λ v. ok "{bind_addr: 10.0.0.1}";
}

abbrev address : String
address = "10.0.0.1"

abbrev written : String
written = "{bind_addr: 10.0.0.1}"

abbrev reply_written : (c : Call) → Answer c
reply_written (read_file _) = ok written
reply_written c = answer c

abbrev kept : Env
kept = record { reply = λ h c. reply_written c }

before_set : unmarshal_string one_json "bind_addr" written ≡ ok address
unfolding decode_string string_field equal_fold
before_set = refl

address_there : address ≢ ""
address_there e = ground (arith, eq_iff address "")

get-set_config_example :
    (set_config one_json bind_address_name address >> get_config one_json bind_address_name plain)
      kept []
    ≡ (returns tt, term_write (address <> "\n") ∷ read_call ∷ write_call written ∷ read_call ∷ [])
get-set_config_example =
    get-set_config one_json kept [] written address written address refl before_set refl refl refl
      refl address_there refl
