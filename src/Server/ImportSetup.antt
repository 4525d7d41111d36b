-- ===== src/Server/ImportSetup.antt =====
-- cmd/server/command/setup/importsetup.go: the setup of a further server.
pub mod Removal
pub mod Ordering
use service_discover.Common.{ℕ, String, ◌<>◌, List, [], ◌∷◌}
use service_discover.Errors.{Error, message, wrapped, error_text, Result}
use service_discover.Command.TokenCreation.{unmarshal_token}
use service_discover.Json.{Codec}
use service_discover.FilePath.{join_path, rel_root}
use service_discover.World.{write_file, remove}
use service_discover.Prog.{Prog, ask, check, pure, map_error, result, lift, deferring, ◌>>=◌, ◌>>◌}
use service_discover.Formatter.{Formatter, empty_formatter}
use service_discover.Permissions.{set_strict_permissions}
use service_discover.Carbonio.LocalConfig.{RawKey, load_local_config}
use service_discover.Carbonio.Ldap.{LdapHandler, Base64, create_new_handler}
use service_discover.Encrypter.Reader.{new_reader, read_files}
use service_discover.Command.Network.{
  non_loopback_interfaces, check_valid_binding_address, check_hostname_address,
}
use service_discover.Command.Credentials.{
  retrieve_hostname, download_credentials, open_cluster_credential, add_service_in_ldap,
}
use service_discover.Command.AclToken.{server, create_acl_token, set_acl_token}
use service_discover.Command.BootstrapToken.{consul_acl_bootstrap}
use service_discover.Agent.Setup.{extracted, ca_name, ca_key_name, check_docker_container}
use service_discover.Server.{Settings, generate_certificate_and_config}
use service_discover.Server.Start.{start_server, enable_server}
use service_discover.Server.FirstSetup.{save_configuration}

abbrev pub default_home : String
default_home = "/var/lib/service-discover"

-- `filepath.Rel("/", filepath.Join(home, name))`
abbrev pub archived : (home name : String) → Result String
archived home name = rel_root (join_path home name)

module _ (codec : Codec) (html_quote : String → String) (fuel : ℕ) where
  -- `importSetup` with the key of the authority in its file.
  unfoldable pub configure_server :
      Settings → LdapHandler → (hostname : String) → List (String × String) → Prog Error (Unit {0})
  configure_server s ldap hostname files = do
    config ← generate_certificate_and_config s hostname (extracted files "gossip-key")
    save_configuration codec s config s.bind_address
    add_service_in_ldap ldap hostname
    container ← check_docker_container
    start_server container
    root_token ←
        map_error (result (unmarshal_token codec (extracted files consul_acl_bootstrap)))
          (wrapped "unable to decode ACL Bootstrap token")
    token ←
        map_error (create_acl_token codec html_quote fuel server hostname root_token)
          (wrapped "unable to create ACL policy for this server")
    set_acl_token token root_token
    check (ask (write_file (s.consul_home <> "/password") s.password 0o400))
    enable_server container

  -- `importSetup` from the opening of the credential on: the key is removed once it was written.
  unfoldable pub import_credential :
      Settings → LdapHandler → (hostname : String) → Prog Error (Unit {0})
  unfolding configure_server
  import_credential s ldap hostname = do
    credential ← open_cluster_credential s.cluster_credential
    items ←
        map_error (new_reader credential s.password)
          (λ e. message ("unable to open " <> (credential <> (": " <> error_text e))))
    ca ← result (archived default_home ca_name)
    local_ca ← result (archived s.consul_home ca_name)
    ca_key ← result (archived default_home ca_key_name)
    local_ca_key ← result (archived s.consul_home ca_key_name)
    files ← lift (read_files items (ca ∷ ca_key ∷ consul_acl_bootstrap ∷ "gossip-key" ∷ []))
    check (ask (write_file ("/" <> local_ca) (extracted files ca) 0o600))
    set_strict_permissions ("/" <> local_ca)
    check (ask (write_file ("/" <> local_ca_key) (extracted files ca_key) 0o600))
    deferring (configure_server s ldap hostname files) (remove ("/" <> local_ca_key))

  module _ (parse_xml : String → Result (List RawKey)) (base64 : Base64) where
    -- `importSetup`
    unfoldable pub import_setup : Settings → Prog Error Formatter
    unfolding import_credential
    import_setup s = do
      networks ← non_loopback_interfaces
      check_valid_binding_address networks s.bind_address
      config ← load_local_config parse_xml s.local_config_path
      ldap ← create_new_handler base64 config
      hostname ← retrieve_hostname config ldap
      check_hostname_address hostname
      map_error (download_credentials ldap s.cluster_credential)
          (wrapped "unable to download credentials from LDAP")
      import_credential s ldap hostname
      pure empty_formatter
