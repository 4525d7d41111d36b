-- ===== src/Daemon/SetUp.antt =====
-- cmd/service-discoverd/service-discoverd.go on what cmd/server and cmd/agent write: `addGrpcTLS` on the
-- main.json of a setup.
use service_discover.Common.{
  String, some, List, [], ◌∷◌, ◌≡◌, ◌⊎◌, refl, inl, inr, sym, subst, Bool-cases,
}
use service_discover.Common.Dict.{lookup}
use service_discover.Errors.{ok}
use service_discover.FilePath.{clean}
use service_discover.Json.{Json, Fields, end, num, obj, Codec}
use service_discover.Number.{ℤ, number_text}
use service_discover.World.{Call, Env, read_file, print}
use service_discover.Prog.{returns, running}
use service_discover.Agent.Config as AgentConfig
use service_discover.Server.Config as ServerConfig
use service_discover.Daemon.{as_object, go_map, unmarshal_map, patch_main, add_grpc_tls}
use service_discover.Daemon.Ports.{with_grpc_tls-found}

-- The tree that one of the setups writes, whatever its settings.
abbrev pub IsSetUp : Json → Type 0
IsSetUp main =
    ((c : ServerConfig.SetupConfig) × (main ≡ ServerConfig.marshal_setup_config c))
    ⊎ ((c : AgentConfig.SetupConfig) × (main ≡ AgentConfig.marshal_setup_config c))

abbrev fields_in : Json → Fields
fields_in (obj fs) = fs
fields_in _ = end

-- The map that the daemon decodes has an object with the port.
record HasPort (main : Json) : Type 0 where
  ports : List (String × Json)
  port : Json
  is_object : main ≡ obj (fields_in main)
  stored : as_object (lookup "ports" (go_map (fields_in main))) ≡ some ports
  found : lookup "grpc_tls" ports ≡ some port

abbrev ports_of : (grpc grpc_tls : ℤ) → List (String × Json)
ports_of grpc grpc_tls =
    ("grpc", num (number_text grpc)) ∷ ("grpc_tls", num (number_text grpc_tls)) ∷ []

server-HasPort : (c : ServerConfig.SetupConfig) → HasPort (ServerConfig.marshal_setup_config c)
unfolding go_map lookup
server-HasPort c = record {
  ports = ports_of c.ports.grpc c.ports.grpc_tls;
  port = num (number_text c.ports.grpc_tls);
  is_object = refl;
  stored = elim (Bool-cases c.auto_encrypt.allow_tls) [ inl t ↦ rw t refl | inr t ↦ rw t refl ];
  found = refl;
}

agent-HasPort : (c : AgentConfig.SetupConfig) → HasPort (AgentConfig.marshal_setup_config c)
unfolding go_map lookup
agent-HasPort c = record {
  ports = ports_of c.ports.grpc c.ports.grpc_tls;
  port = num (number_text c.ports.grpc_tls);
  is_object = refl;
  stored = refl;
  found = refl;
}

IsSetUp-HasPort : (main : Json) → IsSetUp main → HasPort main
IsSetUp-HasPort main (inl (c, e)) = subst HasPort (sym e) (server-HasPort c)
IsSetUp-HasPort main (inr (c, e)) = subst HasPort (sym e) (agent-HasPort c)

-- The daemon accepts the main.json of both setups and leaves it as it is: if the file holds what
-- encoding/json prints for the configuration of a setup, whatever the values in it, and reads back
-- as that, `addGrpcTLS` returns, and all that it does is to read the file and to print that the port
-- is there already.
pub add_grpc_tls-IsSetUp :
    (codec : Codec) (main : Json) (text path : String) (env : Env) (h : List Call)
    → IsSetUp main
    → codec.print_indent main ≡ ok text
    → (codec.print_indent main ≡ ok text → codec.parse text ≡ ok main)
    → env.reply h (read_file (clean path)) ≡ ok text
    → add_grpc_tls codec path env h
      ≡ (returns tt, print "'grpc_tls' port already exists\n" ∷ read_file (clean path) ∷ h)
unfolding add_grpc_tls patch_main unmarshal_map running
add_grpc_tls-IsSetUp codec main text path env h k printed reads held =
    let p = IsSetUp-HasPort main k in
    rw (held, reads printed, p.is_object, p.stored, with_grpc_tls-found _ _ p.port p.found) refl
