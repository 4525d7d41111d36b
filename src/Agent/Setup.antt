-- ===== src/Agent/Setup.antt =====
-- cmd/agent/command/setup/setup.go: the steps of the agent's setup. `World` parameters: the codec, the
-- XML parser, base64, and the quoting of html/template; `fuel` is `CreateACLToken`'s.
use service_discover.Common.{
  ℕ, String, ◌<>◌, Bool, true, not, none, some, List, [], ◌∷◌, ◌is◌, if◌then◌else◌, ◌&&◌,
}
use service_discover.Common.Dict.{lookup}
use service_discover.Errors.{Error, message, wrapped, error_text, is_not_exist, Result, ok, err}
use service_discover.Command.TokenCreation.{unmarshal_token}
use service_discover.Json.{Codec}
use service_discover.FilePath.{join_path, rel_root}
use service_discover.World.{
  create_file, create_temp, write_file, remove, close_file, stat, command_run,
}
use service_discover.Prog.{
  Prog, ask, check, pure, fail, lift, result, map_error, deferring, ◌>>=◌, ◌>>◌,
}
use service_discover.Formatter.{Formatter, OutputFormat, empty_formatter, render}
use service_discover.Permissions.{set_strict_permissions}
use service_discover.Exec.{in_path, error_from_stderr}
use service_discover.Systemd.{start_systemd_unit, enable_systemd_unit}
use service_discover.Carbonio.LocalConfig.{RawKey, load_local_config}
use service_discover.Carbonio.Ldap.{Base64, create_new_handler}
use service_discover.Encrypter.Reader.{new_reader, read_files}
use service_discover.Command.Network.{
  non_loopback_interfaces, check_valid_binding_address, check_hostname_address,
}
use service_discover.Command.Credentials.{
  retrieve_hostname, download_credentials, open_cluster_credential, save_bind_address,
}
use service_discover.Command.AclToken.{
  agent, consul_bin, consul_node_name, create_acl_token, set_acl_token,
}
use service_discover.Term.{must_write, with_terminal}
use service_discover.Agent.Config.{setup_config, marshal_setup_config}
use service_discover.Agent.{pre_run, gather_inputs, only_plain}

-- The fields of `Setup`.
pub record Settings : Type 0 where
  pub consul_home : String
  pub local_config_path : String
  pub consul_data : String
  pub consul_file_config : String
  pub cluster_credential : String
  pub mutable_config_file : String
  pub wizard : Bool
  pub password : String
  pub bind_address : String

-- `extractedFiles[name]`: a missing key gives no bytes.
abbrev pub extracted : List (String × String) → String → String
extracted files name = elim (lookup name files) [ none ↦ "" | some content ↦ content ]

-- `CheckDockerContainer`
unfoldable pub check_docker_container : Prog Error Bool
unfolding is_not_exist
check_docker_container = do
  found ← ask (stat "/.dockerenv")
  pure (elim found [ ok _ ↦ true | err e ↦ not (is_not_exist e) ])

-- `createTLSCertificate`
unfoldable pub create_tls_certificate :
    Settings → (ca_file ca_key_file : String) → Prog Error (Unit {0})
create_tls_certificate s ca_file ca_key_file = do
  map_error
      (in_path consul_bin
        ("tls" ∷ "cert" ∷ "create" ∷ "-days=10950" ∷ "-ca" ∷ ca_file ∷ "-key" ∷ ca_key_file
          ∷ "-client" ∷ [])
        s.consul_home)
      (λ e. error_from_stderr e "unable to generate correct CA certificate")
  set_strict_permissions (join_path s.consul_home "dc1-client-consul-0.pem")
  set_strict_permissions (join_path s.consul_home "dc1-client-consul-0-key.pem")

-- The steps of `setup` that have the key of the authority in a temporary file.
unfoldable pub with_key_file : Settings → (ca_file key_file key : String) → Prog Error (Unit {0})
unfolding create_tls_certificate
with_key_file s ca_file key_file key = do
  check (ask (write_file key_file key 0o600))
  set_strict_permissions key_file
  create_tls_certificate s ca_file key_file
  map_error (check (ask (remove key_file)))
      (wrapped ("cannot remove secret " <> (key_file <> " please remove it manually")))

abbrev pub unit_name : String
unit_name = "service-discover.service"

-- The start of the daemon, in a container without systemd.
unfoldable pub start_daemon : (container : Bool) → Prog Error (Unit {0})
start_daemon container =
    if container
    then map_error (check (ask (command_run "service-discoverd-docker" ("agent" ∷ []))))
        (wrapped "unable to start service-discoverd")
    else map_error (start_systemd_unit unit_name) (wrapped ("unable to start " <> unit_name))

abbrev pub ca_name : String
ca_name = "consul-agent-ca.pem"

abbrev pub ca_key_name : String
ca_key_name = "consul-agent-ca-key.pem"

module _ (codec : Codec) (html_quote : String → String) (fuel : ℕ) where
  -- The files that `setup` writes behind the check of the host name, and the start of the daemon.
  unfoldable pub configure_agent :
      Settings → (hostname : String) → List (String × String) → Prog Error (Unit {0})
  unfolding start_daemon
  configure_agent s hostname files = do
    config ← result (
        codec.print_indent (
          marshal_setup_config (
            setup_config s.consul_home s.consul_data (extracted files "gossip-key")
              (consul_node_name agent hostname))))
    map_error (check (ask (write_file s.consul_file_config config 0o600)))
        (wrapped ("unable to save generated configuration file in " <> s.consul_file_config))
    set_strict_permissions s.consul_file_config
    save_bind_address codec s.mutable_config_file s.bind_address
    set_strict_permissions s.mutable_config_file
    container ← check_docker_container
    start_daemon container
    root_token ←
        map_error (result (unmarshal_token codec (extracted files "consul-acl-secret.json")))
          (wrapped "unable to decode ACL Bootstrap token")
    token ←
        map_error (create_acl_token codec html_quote fuel agent hostname root_token)
          (wrapped "unable to create ACL policy for this agent")
    set_acl_token token root_token
    if container
        then pure tt
        else map_error (enable_systemd_unit unit_name)
            (λ e. message ("unable to enable " <> (unit_name <> (" unit: " <> error_text e))))

  -- `setup` from the opening of the credential on, with the file `credential` open.
  unfoldable pub install : Settings → (hostname credential : String) → Prog Error (Unit {0})
  unfolding configure_agent with_key_file
  install s hostname credential = do
    items ← map_error (new_reader credential s.password) (wrapped ("unable to read " <> credential))
    ca_path ← result (rel_root (join_path s.consul_home ca_name))
    ca_key_path ← result (rel_root (join_path s.consul_home ca_key_name))
    files ←
        lift
          (read_files items (ca_path ∷ ca_key_path ∷ "gossip-key" ∷ "consul-acl-secret.json" ∷ []))
    check (ask (create_file (s.consul_home <> ("/" <> ca_name))))
    check (ask (write_file (s.consul_home <> ("/" <> ca_name)) (extracted files ca_path) 0o600))
    set_strict_permissions (s.consul_home <> ("/" <> ca_name))
    key_file ← check (ask (create_temp "" "service-discover*"))
    deferring
        (do
          with_key_file s (s.consul_home <> ("/" <> ca_name)) key_file (extracted files ca_key_path)
          check_hostname_address hostname
          configure_agent s hostname files)
        (remove key_file)

  module _ (parse_xml : String → Result (List RawKey)) (base64 : Base64) where
    -- `setup`, outside the tests of the repository.
    unfoldable pub setup : Settings → Prog Error Formatter
    unfolding install
    setup s = do
      networks ← non_loopback_interfaces
      check_valid_binding_address networks s.bind_address
      config ← load_local_config parse_xml s.local_config_path
      ldap ← create_new_handler base64 config
      hostname ← retrieve_hostname config ldap
      map_error (download_credentials ldap s.cluster_credential)
          (wrapped "unable to download credentials from LDAP")
      credential ←
          map_error (open_cluster_credential s.cluster_credential)
            (λ e. message ("unable to open " <> (s.cluster_credential <> (": " <> error_text e))))
      deferring (install s hostname credential) (close_file credential)
      pure empty_formatter

    -- `Setup.Run`
    unfoldable pub run : Settings → OutputFormat → Prog Error (Unit {0})
    unfolding setup
    run s format = with_terminal (do
      pre_run
      if (s.password is "") && (s.bind_address is "")
          then fail (message "missing arguments")
          else pure tt
      out ← setup s
      if s.wizard then pure tt else (do text ← result (render out format); must_write text))

    -- `Wizard.Run`
    unfoldable pub run_wizard : Settings → OutputFormat → Prog Error (Unit {0})
    unfolding setup gather_inputs pre_run
    run_wizard s format = with_terminal (do
      pre_run
      only_plain format
      inputs ← gather_inputs
      _ ← setup (record s { password = inputs.password; bind_address = inputs.bind_address })
      pure tt)
