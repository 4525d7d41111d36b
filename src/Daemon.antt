-- ===== src/Daemon.antt =====
-- cmd/service-discoverd/service-discoverd.go: the daemon checks that it runs as root, reads the
-- credentials, drops its privileges, asks LDAP for the servers, patches main.json and becomes consul.
pub mod ExitCode
pub mod Calls
pub mod Privileges
pub mod Servers
pub mod SetUp
pub mod Ports
pub mod Exits
use service_discover.Common.{
  ℕ, ◌+◌, ◌/◌, String, ◌<>◌, Bool, true, false, ◌||◌, Option, none, some, List, [], ◌∷◌, ◌++◌, ◌==◌,
  ◌is◌, if◌then◌else◌, length,
}
use service_discover.Common.Dict.{lookup, insert}
use service_discover.Text.{itoa}
use service_discover.FilePath.{clean}
use service_discover.Errors.{Error, error_text, message, Result, ok, err}
use service_discover.Number.{atoi}
use service_discover.Json.{
  Json, null, bool, num, str, arr, obj, Items, nil, cons, Fields, end, field, Codec, fields_of,
  object, bind_result,
}
use service_discover.World.{
  User, getuid, getenv, lookup_user, setgid, setuid, exec, exit_process, log, print, read_file,
  write_file,
}
use service_discover.Prog.{
  Prog, Outcome, outcome_of, ask, check, pure, fail, panic, lift, result, on_error, map_error,
  maybe, ◌>>=◌, ◌>>◌,
}
use ExitCode.{ErrorWithExitCode, exit_with, exit_plain}
use service_discover.Carbonio.LocalConfig.{
  RawKey, load_local_config, local_config_path, server_hostname, value,
}
use service_discover.Carbonio.Ldap.{LdapHandler, Base64, create_new_handler, service_name}

abbrev pub consul_bin_path : String
consul_bin_path = "/usr/bin/consul"

-- `checkRoot`
unfoldable pub check_root : Prog ErrorWithExitCode (Unit {0})
check_root = do
  uid ← ask getuid
  if uid == 0 then pure tt else fail (exit_plain ExitCode.user_stuff "run as root")

abbrev pub user_error : String → Error → ErrorWithExitCode
user_error = exit_with ExitCode.user_stuff

-- `changeUser`: the group is changed before the user.
unfoldable pub change_user : Prog ErrorWithExitCode (Unit {0})
change_user = do
  user ←
      map_error (check (ask (lookup_user "service-discover")))
        (user_error "cannot find user 'service-discover': ")
  uid ← map_error (result (atoi user.uid)) (user_error "cannot parse uid: ")
  gid ← map_error (result (atoi user.gid)) (user_error "cannot parse gid: ")
  map_error (check (ask (setgid gid))) (user_error "cannot change gid: ")
  map_error (check (ask (setuid uid))) (user_error "cannot change uid: ")

-- The loop of `startConsul` over the servers: an argument for each server that is not the local one.
unfoldable pub join_args : (local_server : String) → (servers : List String) → List String
join_args local_server [] = []
join_args local_server (s ∷ servers) =
    if local_server is s
    then join_args local_server servers
    else ("-retry-join=" <> s) ∷ join_args local_server servers

-- `found` behind that loop.
unfoldable pub is_listed : (local_server : String) → (servers : List String) → Bool
is_listed local_server [] = false
is_listed local_server (s ∷ servers) =
    if local_server is s then true else is_listed local_server servers

abbrev pub config_args : List String
config_args = "-config-dir" ∷ "/etc/zextras/service-discover/" ∷ []

abbrev pub mode_args : (is_server : Bool) → (servers : List String) → List String
mode_args true servers =
    "-bootstrap-expect" ∷ itoa (length servers / 2 + 1) ∷ (config_args ++ "-server" ∷ [])
mode_args false servers = config_args

-- The arguments that `startConsul` gives to consul.
unfoldable pub consul_args : (is_server : Bool) → (servers : List String) → String → List String
unfolding join_args itoa
consul_args is_server servers local_server =
    consul_bin_path
    ∷ "agent"
    ∷ (mode_args is_server servers
        ++ ((if is_server then ("-retry-join=" <> local_server) ∷ [] else [])
            ++ join_args local_server servers))

abbrev pub placement_error : (is_server found : Bool) → String → Option ErrorWithExitCode
placement_error true false local_server = some (
    exit_plain ExitCode.ldap_error (
      "local service-discover server NOT present in ldap/zimbraServiceEnabled attribute "
      <> local_server))
placement_error false true local_server = some (
    exit_plain ExitCode.ldap_error (
      "local service-discover agent must NOT be present in ldap/zimbraServiceEnabled attribute "
      <> local_server))
placement_error _ _ local_server = none

-- `deps.Getenv(name)` is called once for the test and once more for the value.
unfoldable pub getenv_twice : String → Prog ErrorWithExitCode (List String)
getenv_twice name = do
  set ← ask (getenv name)
  if set is "" then pure [] else do value ← ask (getenv name); pure ((name <> ("=" <> value)) ∷ [])

-- `startConsul` behind the test of the placement. A successful `exec` does not come back.
unfoldable pub exec_consul : (args : List String) → Prog ErrorWithExitCode (Unit {0})
unfolding getenv_twice
exec_consul args = do
  shell ← getenv_twice "SHELL"
  socket ← getenv_twice "NOTIFY_SOCKET"
  map_error (check (ask (exec consul_bin_path args (shell ++ socket))))
      (exit_with ExitCode.exec_error "consul execute failed: ")
  fail (exit_plain ExitCode.exec_error "consul execute failed, still running")

-- `startConsul`
unfoldable pub start_consul :
    (is_server : Bool)
    → (servers : List String) → (local_server : String) → Prog ErrorWithExitCode (Unit {0})
unfolding is_listed exec_consul
start_consul is_server servers local_server =
    maybe (placement_error is_server (is_listed local_server servers) local_server)
      (exec_consul (consul_args is_server servers local_server)) fail

-- `queryAllServiceDiscoverServers`
unfoldable pub query_servers : LdapHandler → Prog ErrorWithExitCode (List String)
query_servers ldap =
    map_error (ldap.query_all_servers service_name)
      (exit_with ExitCode.ldap_error "unable to query ldap: ")

-- The value of a tree that `json.Unmarshal` puts into `any`: a map holds the last of the fields of
-- one name.
mutual
  pub go_value : Json → Json
  go_value (arr xs) = arr (go_items xs)
  go_value (obj fs) = obj (object (go_map fs))
  go_value v = v

  pub go_items : Items → Items
  go_items nil = nil
  go_items (cons v xs) = cons (go_value v) (go_items xs)

  pub go_map : Fields → List (String × Json)
  go_map end = []
  go_map (field k v fs) =
      let rest = go_map fs in
      let here = go_value v in elim (lookup k rest) [ some _ ↦ rest | none ↦ (k, here) ∷ rest ]

-- `json.Unmarshal` into `map[string]any`: null leaves the map nil.
unfoldable pub unmarshal_map : Codec → String → Result (List (String × Json))
unfolding go_map
unmarshal_map codec content = bind_result (codec.parse content) λ v. elim v [
  | obj fs ↦ ok (go_map fs)
  | null ↦ ok []
  | _ ↦ err (message "json: cannot unmarshal into Go value of type map[string]interface {}")
]

-- `ports, ok := jsonData["ports"].(map[string]any)`
abbrev pub as_object : Option Json → Option (List (String × Json))
as_object (some (obj fs)) = some (fields_of fs)
as_object _ = none

-- The map with the port, written through the map inside it; `none` if the port is there already.
unfoldable pub with_grpc_tls :
    List (String × Json) → (ports : List (String × Json)) → Option (List (String × Json))
with_grpc_tls main ports = elim (lookup "grpc_tls" ports) [
  | some _ ↦ none
  | none ↦ some (insert "ports" (obj (object (insert "grpc_tls" (num "8503") ports))) main)
]

module _ (codec : Codec) where
  -- `addGrpcTLS` behind the read of the file.
  unfoldable pub patch_main :
      (path : String) → List (String × Json) → Prog ErrorWithExitCode (Unit {0})
  unfolding with_grpc_tls
  patch_main path main =
      maybe (as_object (lookup "ports" main))
        (fail (
          exit_plain ExitCode.parse_ports
            "Invalid JSON structure: 'ports' field is missing or not an object"))
        λ ports.
          maybe (with_grpc_tls main ports) (ask (print "'grpc_tls' port already exists\n")) λ main'.
            do
              bytes ←
                  map_error (result (codec.print_indent (obj (object main'))))
                    (exit_with ExitCode.marshal_main_json "Failed to marshal modified JSON data:")
              map_error (check (ask (write_file path bytes 0o644)))
                  (exit_with ExitCode.write_main_json "Failed to write output file:")

  -- `addGrpcTLS`
  unfoldable pub add_grpc_tls : (path : String) → Prog ErrorWithExitCode (Unit {0})
  unfolding patch_main
  add_grpc_tls path = do
    bytes ←
        map_error (check (ask (read_file (clean path))))
          (exit_with ExitCode.read_main_json "Failed to read input file:")
    main ←
        map_error (result (unmarshal_map codec bytes))
          (exit_with ExitCode.parse_main_json "Failed to parse JSON data:")
    patch_main path main

abbrev pub main_json_path : (rest : List String) → String
main_json_path [] = "/etc/zextras/service-discover/main.json"
main_json_path (path ∷ _) = path

-- `deps.Log(err.Log); deps.Exit(err.ExitCode); return`
unfoldable pub report : ErrorWithExitCode → Prog ErrorWithExitCode (Unit {0})
report e = do _ ← ask (log e.log); ask (exit_process e.exit_code)

-- `args[1]`, and what stands behind it.
abbrev pub mode_of : List String → Option (Bool × List String)
mode_of (_ ∷ mode ∷ rest) =
    if mode is "server"
    then some (true, rest)
    else if mode is "agent"
    then some (false, rest)
    else none
mode_of _ = none

module _ (parse_xml : String → Result (List RawKey)) (base64 : Base64) where
  -- `readLocalConfig`. Neither `CreateNewHandler` nor `Value` has an error to give.
  unfoldable pub read_local_config : Prog ErrorWithExitCode (LdapHandler × String)
  read_local_config = do
    local_config ←
        map_error (load_local_config parse_xml local_config_path)
          (exit_with ExitCode.local_cfg "unable to read ldap configuration: ")
    ldap ← map_error (create_new_handler base64 local_config) (exit_with 0 "")
    host ← map_error (lift (value local_config server_hostname)) (exit_with 0 "")
    pure (ldap, host)

module _ (codec : Codec) (parse_xml : String → Result (List RawKey)) (base64 : Base64) where
  -- The steps of `runServiceDiscoverDaemon`, with the errors that it reports.
  unfoldable pub daemon_steps :
      (is_server : Bool) → (rest : List String) → Prog ErrorWithExitCode (Unit {0})
  daemon_steps is_server rest = do
    check_root
    (ldap, local_server) ← read_local_config parse_xml base64
    change_user
    servers ← query_servers ldap
    add_grpc_tls codec (main_json_path rest)
    start_consul is_server servers local_server

  -- `runServiceDiscoverDaemon`
  unfoldable pub run_daemon : (args : List String) → Prog ErrorWithExitCode (Unit {0})
  run_daemon args =
      maybe (mode_of args)
        (report (exit_plain ExitCode.wrong_args "one parameter: server or agent"))
        λ (is_server, rest).
          on_error (daemon_steps is_server rest >>= λ _. panic "service-discoverd failure") report
