-- ===== src/Daemon/Exits.antt =====
-- How cmd/service-discoverd/service-discoverd.go ends: `runServiceDiscoverDaemon`.
use service_discover.Common.{
  ℕ, ◌≤◌, String, Bool, true, false, Option, none, some, List, ◌∷◌, ◌++◌, ◌≡◌, refl, arith, inl,
  inr,
}
use service_discover.Errors.{Error, Result}
use service_discover.Json.{Codec, Json, obj, object}
use service_discover.FilePath.{clean}
use service_discover.World.{
  Call, Env, getuid, getenv, lookup_user, setgid, setuid, exec, exit_process, log, print, read_file,
  write_file,
}
use service_discover.Prog.{
  Prog, Outcome, returns, fails, panics, fail, panic, maybe, result, ◌>>=◌, on_error, running,
  continue, handle,
}
use service_discover.Prog.Ends.{
  Ends, EndsWell, Any, Never, Ends-bind, Ends-check, Ends-ask, Ends-fail, Ends-pure, Ends-result,
  Ends-lift, Ends-if, Ends-maybe, Ends-map_error,
}
use service_discover.Number.{atoi}
use service_discover.Carbonio.LocalConfig.{
  RawKey, LocalConfig, local_config_path, ldap_master_url, ldap_url, ldap_user_dn, ldap_password,
  server_hostname,
}
use service_discover.Carbonio.LocalConfig.Lookup.{
  HasRequired, load_local_config-Ends, value-EndsWell, values-EndsWell,
}
use service_discover.Carbonio.Ldap.{
  LdapHandler, Base64, LdapCredentials, create_new_handler, read_credentials, ldap_context,
  service_name,
}
use service_discover.Carbonio.Ldap.Connection.{query_all_servers-Ends}
use service_discover.Daemon.ExitCode.{ErrorWithExitCode, exit_with, exit_plain, wrong_args}
use service_discover.Common.Dict.{lookup as lookup_field}
use service_discover.Daemon.{
  consul_bin_path, main_json_path, check_root, read_local_config, change_user, query_servers,
  add_grpc_tls, patch_main, start_consul, exec_consul, getenv_twice, daemon_steps, run_daemon,
  report, mode_of, placement_error, is_listed, consul_args, unmarshal_map, as_object, with_grpc_tls,
}

-- The exit codes of the daemon.
abbrev pub HasExitCode : ErrorWithExitCode → Type 0
HasExitCode e = (1001 ≤ e.exit_code) × (e.exit_code ≤ 1010)

abbrev Handler : LdapHandler → Type 0
Handler ldap = Ends Any Any (ldap.query_all_servers service_name)

check_root-Ends : Ends Any HasExitCode check_root
unfolding check_root
check_root-Ends =
    Ends-bind _ _ (Ends-ask getuid)
      λ uid _. Ends-if _ _ _ (Ends-pure tt tt) (Ends-fail _ (omega arith))

module _ (l : LocalConfig) (r : HasRequired l) where
  read_credentials-Ends : Ends Any Never (read_credentials l)
  unfolding read_credentials
  read_credentials-Ends =
      Ends-bind _ _ (Ends-lift _ (values-EndsWell l ldap_master_url (r _ (inl refl)))) λ masters _.
        Ends-bind _ _ (Ends-lift _ (values-EndsWell l ldap_url (r _ (inr (inl refl)))))
          λ replicas _.
            Ends-bind _ _ (Ends-lift _ (value-EndsWell l ldap_user_dn (r _ (inr (inr (inl refl))))))
              λ user _.
                Ends-bind _ _
                  (Ends-lift _ (value-EndsWell l ldap_password (r _ (inr (inr (inr (inl refl)))))))
                  λ pass _. Ends-pure _ tt

module _ (base64 : Base64) (K : LdapHandler → Type 0)
    (made : (c : LdapCredentials) → K (ldap_context base64 c)) where
  -- What holds of each `ldapContext` holds of the handler.
  create_new_handler-Ends :
      (l : LocalConfig) → HasRequired l → Ends K Never (create_new_handler base64 l)
  unfolding create_new_handler
  create_new_handler-Ends l r =
      Ends-bind _ _ (read_credentials-Ends l r) λ c _. Ends-pure (ldap_context base64 c) (made c)

  pub read_local_config-Ends :
      (parse_xml : String → Result (List RawKey))
      → Ends (λ x. K x.0) HasExitCode (read_local_config parse_xml base64)
  unfolding read_local_config
  read_local_config-Ends parse_xml =
      Ends-bind _ _
        (Ends-map_error Any _ _ (load_local_config-Ends parse_xml local_config_path)
          (λ e _. (omega arith, omega arith)))
        λ l r.
          Ends-bind _ _ (Ends-map_error Never _ _ (create_new_handler-Ends l r) (λ e x. absurd x))
            λ ldap k.
              Ends-bind _ _
                (Ends-map_error Never _ _
                  (Ends-lift _
                    (value-EndsWell l server_hostname (r _ (inr (inr (inr (inr (inl refl))))))))
                  (λ e x. absurd x))
                λ host _. Ends-pure (ldap, host) k

module _ {A : Type 0} (m : Prog Error A) (code : ℕ) (text : String) (k : Ends Any Any m) where
  -- An error that is reported with an exit code.
  Ends-exit_with :
      1001 ≤ code
      → code ≤ 1010
      → Ends Any HasExitCode (on_error m (λ e. fail (exit_with code text e)))
  Ends-exit_with low high = Ends-map_error Any m _ k (λ e _. (low, high))

abbrev lookup : Call
lookup = lookup_user "service-discover"

-- A call whose error is reported with an exit code.
module _ {A : Type 0} (m : Prog Error (Result A)) (k : Ends Any Any m) where
  Ends-try :
      (code : ℕ) (text : String)
      → 1001 ≤ code
      → code ≤ 1010
      → Ends Any HasExitCode (on_error (m >>= result) (λ e. fail (exit_with code text e)))
  Ends-try code text low high = Ends-exit_with _ code text (Ends-check m k (λ e. tt)) low high

Ends-parsed :
    {A : Type 0} (r : Result A) (code : ℕ) (text : String)
    → 1001 ≤ code
    → code ≤ 1010
    → Ends Any HasExitCode (on_error (result r) (λ e. fail (exit_with code text e)))
Ends-parsed r code text low high = Ends-exit_with _ code text (Ends-result r (λ e. tt)) low high

change_user-Ends : Ends Any HasExitCode change_user
unfolding change_user
change_user-Ends =
    Ends-bind _ _ (Ends-try _ (Ends-ask lookup) _ _ (omega arith) (omega arith)) λ user _.
      Ends-bind _ _ (Ends-parsed (atoi user.uid) _ _ (omega arith) (omega arith)) λ uid _.
        Ends-bind _ _ (Ends-parsed (atoi user.gid) _ _ (omega arith) (omega arith)) λ gid _.
          Ends-bind _ _ (Ends-try _ (Ends-ask (setgid gid)) _ _ (omega arith) (omega arith))
            λ _ _. Ends-try _ (Ends-ask (setuid uid)) _ _ (omega arith) (omega arith)

query_servers-Ends : (ldap : LdapHandler) → Handler ldap → Ends Any HasExitCode (query_servers ldap)
unfolding query_servers
query_servers-Ends ldap k = Ends-exit_with _ _ _ k (omega arith) (omega arith)

getenv_twice-Ends : (name : String) → Ends Any HasExitCode (getenv_twice name)
unfolding getenv_twice
getenv_twice-Ends name = Ends-bind _ _ (Ends-ask (getenv name)) λ set _.
    Ends-if _ _ _ (Ends-pure _ tt)
      (Ends-bind _ _ (Ends-ask (getenv name)) λ value _. Ends-pure _ tt)

exec_consul-Ends : (args : List String) → Ends Never HasExitCode (exec_consul args)
unfolding exec_consul
exec_consul-Ends args = Ends-bind _ _ (getenv_twice-Ends "SHELL") λ shell _.
    Ends-bind _ _ (getenv_twice-Ends "NOTIFY_SOCKET") λ socket _.
      Ends-bind _ _
        (Ends-try _ (Ends-ask (exec consul_bin_path args (shell ++ socket))) _ _ (omega arith)
          (omega arith))
        λ _ _. Ends-fail _ (omega arith, omega arith)

fail_placement-Ends :
    (is_server found : Bool) (host : String) (m : Prog ErrorWithExitCode (Unit {0}))
    → Ends Never HasExitCode m
    → Ends Never HasExitCode (maybe (placement_error is_server found host) m fail)
fail_placement-Ends true true host m k = k
fail_placement-Ends false false host m k = k
fail_placement-Ends true false host m k = Ends-fail _ (omega arith, omega arith)
fail_placement-Ends false true host m k = Ends-fail _ (omega arith, omega arith)

start_consul-Ends :
    (is_server : Bool) (servers : List String) (host : String)
    → Ends Never HasExitCode (start_consul is_server servers host)
unfolding start_consul
start_consul-Ends is_server servers host =
    fail_placement-Ends is_server (is_listed host servers) host _
      (exec_consul-Ends (consul_args is_server servers host))

module _ (codec : Codec) where
  patch_main-Ends :
      (path : String) (main : List (String × Json))
      → Ends Any HasExitCode (patch_main codec path main)
  unfolding patch_main
  patch_main-Ends path main =
      Ends-maybe (as_object (lookup_field "ports" main)) _ _
        (Ends-fail _ (omega arith, omega arith))
        λ ports.
          Ends-maybe (with_grpc_tls main ports) _ _
            (Ends-ask (print "'grpc_tls' port already exists\n"))
            λ main'.
              Ends-bind _ _
                (Ends-parsed (codec.print_indent (obj (object main'))) _ _ (omega arith)
                  (omega arith))
                λ bytes _.
                  Ends-try _ (Ends-ask (write_file path bytes 0o644)) _ _ (omega arith)
                    (omega arith)

  add_grpc_tls-Ends : (path : String) → Ends Any HasExitCode (add_grpc_tls codec path)
  unfolding add_grpc_tls
  add_grpc_tls-Ends path =
      Ends-bind _ _ (Ends-try _ (Ends-ask (read_file (clean path))) _ _ (omega arith) (omega arith))
        λ bytes _.
          Ends-bind _ _ (Ends-parsed (unmarshal_map codec bytes) _ _ (omega arith) (omega arith))
            λ main _. patch_main-Ends path main

-- The last calls log an error and exit with its code, and then the function returns.
pub record IsReported (r : Outcome ErrorWithExitCode (Unit {0}) × List Call) : Type 0 where
  pub error : ErrorWithExitCode
  pub before : List Call
  pub code : HasExitCode error
  pub ending : r ≡ (returns tt, exit_process error.exit_code ∷ log error.log ∷ before)

report-IsReported :
    (e : ErrorWithExitCode)
    → HasExitCode e
    → (env : Env) (h : List Call) → IsReported (report e env h)
unfolding report running
report-IsReported e k env h = record { error = e; before = h; code = k; ending = refl }

module _ (text : String) (env : Env) (h : List Call) where
  IsReported-handle :
      (r : Outcome ErrorWithExitCode (Unit {0}))
      → EndsWell Never HasExitCode r
      → IsReported (let (s, h') = continue r (λ _. panic text) env h in handle report s env h')
  IsReported-handle (returns a) w = absurd w
  IsReported-handle (fails e) w = report-IsReported e w env h
  IsReported-handle (panics t) w = absurd w

module _ (codec : Codec) (parse_xml : String → Result (List RawKey)) (base64 : Base64) where
  daemon_steps-Ends :
      (is_server : Bool) (rest : List String)
      → Ends Never HasExitCode (daemon_steps codec parse_xml base64 is_server rest)
  unfolding daemon_steps
  daemon_steps-Ends is_server rest = Ends-bind _ _ check_root-Ends λ _ _.
      Ends-bind _ _
        (read_local_config-Ends base64 Handler (λ c. query_all_servers-Ends c service_name)
          parse_xml)
        λ x k. Ends-bind _ _ change_user-Ends λ _ _.
          Ends-bind _ _ (query_servers-Ends x.0 k) λ servers _.
            Ends-bind _ _ (add_grpc_tls-Ends codec (main_json_path rest))
              λ _ _. start_consul-Ends is_server servers x.1

  IsReported-mode :
      (mode : Option (Bool × List String)) (env : Env) (h : List Call)
      → IsReported (
          maybe mode
            (report (exit_plain wrong_args "one parameter: server or agent"))
            (λ x.
              on_error
                (daemon_steps codec parse_xml base64 x.0 x.1 >>= λ _.
                  panic "service-discoverd failure")
                report)
            env
            h)
  unfolding on_error ◌>>=◌
  IsReported-mode none env h = report-IsReported _ (omega arith, omega arith) env h
  IsReported-mode (some (is_server, rest)) env h =
      IsReported-handle "service-discoverd failure" env
        (daemon_steps codec parse_xml base64 is_server rest env h).1
        (daemon_steps codec parse_xml base64 is_server rest env h).0
        ((daemon_steps-Ends is_server rest).at env h)

  -- Whatever its arguments, its environment and the calls before it, `runServiceDiscoverDaemon`
  -- ends by logging an error and by exiting with the code of that error, which lies between 1001 and
  -- 1010. It does not panic, whatever the XML parser, the base64 codec and the JSON codec do, and no
  -- other call comes behind the exit.
  pub run_daemon-reports :
      (args : List String) (env : Env) (h : List Call)
      → IsReported (run_daemon codec parse_xml base64 args env h)
  unfolding run_daemon
  run_daemon-reports args env h = IsReported-mode (mode_of args) env h
