-- ===== src/Examples/Daemons.antt =====
-- The theorems on the daemon at concrete inputs.
use service_discover.Common.{
  ℕ, ◌*◌, ◌<◌, ◌≤◌, String, true, some, none, List, [], ◌∷◌, ◌↔◌, ◌≡◌, ◌⊎◌, In, refl, inl,
}
use service_discover.Common.Dict.{lookup}
use service_discover.Text.{itoa}
use service_discover.Errors.{ok}
use service_discover.World.{Call, Answer, Env, ldap_search, print, read_file, write_file}
use service_discover.Json.{Json, obj, num, bool, object, Codec}
use service_discover.Daemon.{
  run_daemon, join_args, consul_args, consul_bin_path, with_grpc_tls, add_grpc_tls,
}
use service_discover.FilePath.{clean}
use service_discover.Prog.{returns}
use service_discover.Server.Config.{SetupConfig, setup_config, marshal_setup_config}
use service_discover.Daemon.SetUp.{add_grpc_tls-IsSetUp}
use service_discover.Daemon.Exits.{IsReported, run_daemon-reports}
use service_discover.Daemon.Privileges.{Guarded, run_daemon-Guarded}
use service_discover.Daemon.Servers.{
  IsJoin, In-join_args, Starts, start_consul-Starts, consul_args-quorum,
}
use service_discover.Daemon.Ports.{IsPatched, add_grpc_tls-IsPatched}
use service_discover.Examples.{answer, plain_base64, parse_five}

abbrev args : List String
args = "service-discoverd" ∷ "server" ∷ []

abbrev hosts : List String
hosts = "a.example" ∷ "b.example" ∷ "c.example" ∷ []

-- A host that LDAP lists, and a main.json with ports: the daemon gets as far as consul.
abbrev reply_listed : (c : Call) → Answer c
reply_listed (ldap_search _ _ _ _) = ok (
    record {
      dn = "uid=host";
      attributes = record { name = "zimbraServiceHostname"; values = "host" ∷ [] } ∷ [];
    }
    ∷ [])
reply_listed c = answer c

abbrev listed : Env
listed = record { reply = λ h c. reply_listed c }

abbrev main_codec : Codec
main_codec = record {
  parse = λ s. ok (obj (object (("ports", obj (object [])) ∷ [])));
  print = λ v. ok "";
  print_indent = λ v. ok "{}";
}

run_daemon-reports_example :
    IsReported (run_daemon main_codec parse_five plain_base64 args listed [])
run_daemon-reports_example = run_daemon-reports main_codec parse_five plain_base64 args listed []

run_daemon-Guarded_example :
    Guarded listed (run_daemon main_codec parse_five plain_base64 args listed []).1
run_daemon-Guarded_example = run_daemon-Guarded main_codec parse_five plain_base64 listed args

In-join_args_example :
    In "-retry-join=b.example" (join_args "a.example" hosts)
    ↔ IsJoin "a.example" hosts "-retry-join=b.example"
In-join_args_example = In-join_args "a.example" hosts "-retry-join=b.example"

start_consul-Starts_example : Starts true hosts "b.example"
start_consul-Starts_example = start_consul-Starts true hosts "b.example"

consul_args-quorum_example :
    (q : ℕ) × (rest : List String) × ((consul_args true hosts "a.example"
        ≡ consul_bin_path ∷ "agent" ∷ "-bootstrap-expect" ∷ itoa q ∷ rest)
      × ((3 < 2 * q) × (2 * q ≤ 5)))
consul_args-quorum_example = consul_args-quorum hosts "a.example"

abbrev some_ports : List (String × Json)
some_ports = ("http", num "8500") ∷ []

abbrev a_main : List (String × Json)
a_main = ("ports", obj (object some_ports)) ∷ ("server", bool true) ∷ []

-- A codec that reads that object, and a host whose file holds it.
abbrev patch_codec : Codec
patch_codec = record {
  parse = λ s. ok (obj (object a_main));
  print = λ v. ok "";
  print_indent = λ v. ok "{}";
}

add_grpc_tls-IsPatched_example :
    ((v : Json) × ((lookup "grpc_tls" some_ports ≡ some v)
        × (add_grpc_tls patch_codec "/main.json" listed [] ≡ (
          returns tt,
          print "'grpc_tls' port already exists\n" ∷ read_file (clean "/main.json") ∷ [],
        ))))
    ⊎ ((main' : List (String × Json)) × ((lookup "grpc_tls" some_ports ≡ none)
          × (IsPatched a_main some_ports main'
              × (add_grpc_tls patch_codec "/main.json" listed [] ≡ (
                returns tt,
                write_file "/main.json" "{}" 0o644 ∷ read_file (clean "/main.json") ∷ [],
              )))))
unfolding service_discover.Daemon.unmarshal_map lookup
add_grpc_tls-IsPatched_example =
    add_grpc_tls-IsPatched patch_codec (λ v. "{}") a_main some_ports "" "/main.json" listed [] refl
      refl (λ v. refl) refl (λ content. refl)

-- The configuration of a server, and a codec for it alone.
abbrev server_config : SetupConfig
server_config =
    setup_config "/var/lib/service-discover" "/var/lib/service-discover/data" "key" "server-a"

abbrev server_main : Json
server_main = marshal_setup_config server_config

abbrev server_codec : Codec
server_codec = record { parse = λ s. ok server_main; print = λ v. ok ""; print_indent = λ v. ok "" }

add_grpc_tls-IsSetUp_example :
    add_grpc_tls server_codec "/etc/zextras/service-discover/main.json" listed [] ≡ (
      returns tt,
      print "'grpc_tls' port already exists\n"
          ∷ read_file (clean "/etc/zextras/service-discover/main.json")
          ∷ [],
    )
add_grpc_tls-IsSetUp_example =
    add_grpc_tls-IsSetUp server_codec server_main "" "/etc/zextras/service-discover/main.json"
      listed [] (inl (server_config, refl)) refl (λ printed. refl) refl
