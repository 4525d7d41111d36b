-- ===== src/Daemon/Calls.antt =====
-- cmd/service-discoverd/service-discoverd.go: the calls of the daemon's steps.
use service_discover.Common.{String, Bool, List, ◌++◌, ◌is◌}
use service_discover.Errors.{Error, Result}
use service_discover.Json.{Codec}
use service_discover.FilePath.{clean}
use service_discover.World.{
  Call, getuid, getenv, exec, exit_process, log, print, read_file, write_file,
}
use service_discover.Prog.{Prog, fail, result, ◌>>=◌, on_error}
use service_discover.Prog.Emits.{
  Emits, Emits-ask, Emits-pure, Emits-fail, Emits-lift, Emits-if, Emits-bind, Emits-on_error,
  Emits-maybe, emits_rules,
}
use service_discover.Common.Dict.{lookup}
use service_discover.Carbonio.LocalConfig.{RawKey, load_local_config, load_raw}
use service_discover.Carbonio.Ldap.{
  LdapHandler, Base64, create_new_handler, read_credentials, service_name,
}
use service_discover.Daemon.ExitCode.{ErrorWithExitCode}
use service_discover.Daemon.{
  as_object, with_grpc_tls, placement_error, is_listed, consul_bin_path, consul_args, check_root,
  read_local_config, query_servers, add_grpc_tls, patch_main, start_consul, exec_consul,
  getenv_twice, report,
}

-- A call that does not become another program.
abbrev pub IsNotExec : Call → Type 0
IsNotExec (exec _ _ _) = ⊥
IsNotExec _ = Unit

abbrev pub Every : Call → Type 0
Every c = Unit

pub check_root-Emits : Emits IsNotExec check_root
unfolding check_root
check_root-Emits = Emits-bind _ _ (Emits-ask getuid tt) λ uid. search emits_rules

module _ (parse_xml : String → Result (List RawKey)) where
  load_local_config-Emits : (path : String) → Emits IsNotExec (load_local_config parse_xml path)
  unfolding load_local_config load_raw
  load_local_config-Emits path =
      Emits-bind _ _
        (Emits-bind _ _
          (Emits-on_error _ _
            (Emits-bind _ _ (Emits-ask (read_file path) tt) λ r. search emits_rules)
            (λ e. search emits_rules))
          (λ r. search emits_rules))
        (λ r. search emits_rules)

  pub read_local_config-Emits :
      (base64 : Base64) → Emits IsNotExec (read_local_config parse_xml base64)
  unfolding read_local_config create_new_handler read_credentials
  read_local_config-Emits base64 = search (emits_rules, load_local_config-Emits) depth 14

module _ {F : Type 0} (f : Error → F) where
  -- A call of phase two that can fail.
  try-Emits :
      {A : Type 0} (m : Prog Error (Result A))
      → Emits Every m
      → Emits Every (on_error (m >>= result) (λ e. fail (f e)))
  try-Emits m k =
      Emits-on_error _ _ (Emits-bind m result k (λ r. Emits-lift _)) (λ e. Emits-fail (f e))

pub query_servers-Emits :
    (ldap : LdapHandler)
    → Emits Every (ldap.query_all_servers service_name)
    → Emits Every (query_servers ldap)
unfolding query_servers
query_servers-Emits ldap k = Emits-on_error _ _ k (λ e. Emits-fail _)

pub add_grpc_tls-Emits : (codec : Codec) (path : String) → Emits Every (add_grpc_tls codec path)
unfolding add_grpc_tls patch_main
add_grpc_tls-Emits codec path =
    Emits-bind _ _ (try-Emits _ _ (Emits-ask (read_file (clean path)) tt)) λ bytes.
      Emits-bind _ _ (Emits-on_error _ _ (Emits-lift _) (λ e. Emits-fail _)) λ main.
        Emits-maybe (as_object (lookup "ports" main)) _ _ (Emits-fail _) λ ports.
          Emits-maybe (with_grpc_tls main ports) _ _
            (Emits-ask (print "'grpc_tls' port already exists\n") tt)
            λ main'.
              Emits-bind _ _ (Emits-on_error _ _ (Emits-lift _) (λ e. Emits-fail _))
                λ bytes. try-Emits _ _ (Emits-ask (write_file path bytes 0o644) tt)

getenv_twice-Emits : (name : String) → Emits Every (getenv_twice name)
unfolding getenv_twice
getenv_twice-Emits name = Emits-bind _ _ (Emits-ask (getenv name) tt) λ s.
    Emits-if (s is "") _ _ (Emits-pure _)
      (Emits-bind _ _ (Emits-ask (getenv name) tt) λ v. Emits-pure _)

pub start_consul-Emits :
    (is_server : Bool) (servers : List String) (host : String)
    → Emits Every (start_consul is_server servers host)
unfolding start_consul exec_consul
start_consul-Emits is_server servers host =
    Emits-maybe (placement_error is_server (is_listed host servers) host) _ _
      (Emits-bind _ _ (getenv_twice-Emits "SHELL") λ shell.
        Emits-bind _ _ (getenv_twice-Emits "NOTIFY_SOCKET") λ socket.
          Emits-bind _ _
            (try-Emits _ _ (
              Emits-ask
                (exec consul_bin_path (consul_args is_server servers host) (shell ++ socket)) tt))
            λ _. Emits-fail _)
      (λ e. Emits-fail e)

pub report-Emits : (e : ErrorWithExitCode) → Emits IsNotExec (report e)
unfolding report
report-Emits e =
    Emits-bind _ _ (Emits-ask (log e.log) tt) λ _. Emits-ask (exit_process e.exit_code) tt
