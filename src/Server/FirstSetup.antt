-- ===== src/Server/FirstSetup.antt =====
-- cmd/server/command/setup/firstsetup.go: the setup of the first server. `ranged` lists a map in the
-- order of a `range`; `fuel` is that of the three loops that wait.
pub mod Ordering
pub mod Bootstrapping
pub mod Removal
pub mod Steps
use service_discover.Common.{ℕ, String, ◌<>◌, Bool, List, [], ◌∷◌}
use service_discover.Errors.{Error, message, wrapped, error_text, Result, ok}
use service_discover.Command.TokenCreation.{unmarshal_token}
use service_discover.Json.{Codec, str, obj, object}
use service_discover.World.{create_temp, write_file, remove}
use service_discover.Prog.{Prog, ask, check, pure, map_error, result, deferring, ◌>>=◌, ◌>>◌}
use service_discover.Formatter.{Formatter}
use service_discover.Permissions.{set_strict_permissions}
use service_discover.Carbonio.LocalConfig.{RawKey, load_local_config}
use service_discover.Carbonio.Ldap.{LdapHandler, Base64, create_new_handler}
use service_discover.Command.Network.{
  non_loopback_interfaces, check_valid_binding_address, check_hostname_address,
}
use service_discover.Command.Credentials.{
  retrieve_hostname, add_service_in_ldap, save_bind_address, upload_credentials,
}
use service_discover.Command.AclToken.{server, create_acl_token, set_acl_token}
use service_discover.Command.BootstrapToken.{consul_acl_bootstrap}
use service_discover.Agent.Setup.{ca_name, ca_key_name}
use service_discover.Server.Config.{SetupConfig, marshal_setup_config}
use service_discover.Server.{Settings, generate_gossip_key, generate_certificate_and_config}
use service_discover.Server.Start.{
  start_service_discover, enable_server, generate_certification_authority,
}
use service_discover.Server.Bootstrap.{create_acl_bootstrap_token}
use service_discover.Server.Archive.{create_encrypted_secret}

-- The map of the files that go into the archive.
abbrev pub files_to_compress : Settings → (gossip_file acl_file : String) → List (String × String)
files_to_compress s gossip_file acl_file =
    ("gossip-key", gossip_file)
    ∷ (consul_acl_bootstrap, acl_file)
    ∷ (s.consul_home <> ("/" <> ca_name), s.consul_home <> ("/" <> ca_name))
    ∷ (s.consul_home <> ("/" <> ca_key_name), s.consul_home <> ("/" <> ca_key_name))
    ∷ []

-- The configuration files that both setups write.
unfoldable pub save_configuration :
    Codec → Settings → (config : SetupConfig) → (bind_address : String) → Prog Error (Unit {0})
save_configuration codec s config bind_address = do
  content ← result (codec.print_indent (marshal_setup_config config))
  map_error (check (ask (write_file s.consul_file_config content 0o600))) (λ e. message (
      "unable to save generated configuration file in "
      <> (s.consul_home <> (": " <> error_text e))))
  set_strict_permissions s.consul_file_config
  save_bind_address codec s.mutable_config_file bind_address
  set_strict_permissions s.mutable_config_file

module _ (ranged : List (String × String) → List (String × String)) where
  -- The end of `performSetup`, with both temporary files made.
  unfoldable pub publish_credentials :
      Settings
      → LdapHandler
      → (acl_file gossip_file gossip_key password : String) → Prog Error (Unit {0})
  publish_credentials s ldap acl_file gossip_file gossip_key password = do
    check (ask (write_file gossip_file gossip_key 0o600))
    create_encrypted_secret s.cluster_credential (ranged (files_to_compress s gossip_file acl_file))
        password
    check (ask (write_file (s.consul_home <> "/password") s.password 0o400))
    map_error (upload_credentials ldap s.cluster_credential)
        (wrapped "unable to upload credentials file to LDAP")

  -- `performSetup` from the temporary file of the ACL token on.
  unfoldable pub store_credentials :
      Settings
      → LdapHandler
      → (acl_json gossip_key password : String) → (container : Bool) → Prog Error (Unit {0})
  unfolding publish_credentials
  store_credentials s ldap acl_json gossip_key password container = do
    acl_file ← check (ask (create_temp "" consul_acl_bootstrap))
    deferring
        (do
          check (ask (write_file acl_file acl_json 0o600))
          gossip_file ← check (ask (create_temp "" "gossip-key"))
          deferring
              (do
                publish_credentials s ldap acl_file gossip_file gossip_key password
                enable_server container)
              (remove gossip_file))
        (remove acl_file)

  module _ (codec : Codec) (html_quote : String → String) (fuel : ℕ) (base64 : Base64) where
    -- `performSetup` behind the reads of LDAP.
    unfoldable pub install_server :
        Settings → LdapHandler → (hostname password bind_address : String) → Prog Error (Unit {0})
    unfolding store_credentials save_configuration
    install_server s ldap hostname password bind_address = do
      check_hostname_address hostname
      generate_certification_authority s
      gossip_key ← generate_gossip_key base64
      config ← generate_certificate_and_config s hostname gossip_key
      save_configuration codec s config bind_address
      add_service_in_ldap ldap hostname
      container ← start_service_discover fuel
      acl_json ← create_acl_bootstrap_token fuel
      root_token ←
          map_error (result (unmarshal_token codec acl_json))
            (wrapped "unable to decode ACL bootstrap response from Consul")
      token ← create_acl_token codec html_quote fuel server hostname root_token
      set_acl_token token root_token
      store_credentials s ldap acl_json gossip_key password container

    module _ (parse_xml : String → Result (List RawKey)) where
      -- `performSetup`
      unfoldable pub perform_setup :
          Settings → (password bind_address : String) → Prog Error (Unit {0})
      unfolding install_server
      perform_setup s password bind_address = do
        config ← load_local_config parse_xml s.local_config_path
        ldap ← create_new_handler base64 config
        hostname ← retrieve_hostname config ldap
        install_server s ldap hostname password bind_address

      -- `nonInteractiveOutput` without a password, which `omitempty` leaves out.
      abbrev pub non_interactive_output : (enc_filepath : String) → Formatter
      non_interactive_output enc_filepath = record {
        plain_render = ok "";
        json_render = codec.print (obj (object (("cluster_credentials", str enc_filepath) ∷ [])));
      }

      -- `firstSetup`
      unfoldable pub first_setup : Settings → Prog Error Formatter
      unfolding perform_setup
      first_setup s = do
        networks ← non_loopback_interfaces
        check_valid_binding_address networks s.bind_address
        perform_setup s s.password s.bind_address
        pure (non_interactive_output s.cluster_credential)
