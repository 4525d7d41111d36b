-- ===== src/Server/FirstSetup/Steps.antt =====
-- cmd/server/command/setup/firstsetup.go: the calls of the steps of the first setup.
use service_discover.Common.{◌==◌, inl, inr, refl, String, ◌<>◌, Bool, true, List, [], ◌∷◌}
use service_discover.World.{
  random_bytes, command_run, command_output, Call, create_temp, write_file, create_file, chmod,
  close_file, open_file, file_info, read_file, armor_open, armor_close, pgp_open, pgp_close,
  tar_header, tar_copy, tar_flush, tar_close, FileInfo,
}
use service_discover.Prog.Emits.{
  Emits, Emits-ask, Emits-pure, Emits-fail, Emits-lift, Emits-if, Emits-bind, Emits-deferring,
  Emits-finally,
}
use service_discover.Carbonio.Ldap.{Base64, LdapCredentials, ldap_context, add_service, change_add}
use service_discover.Carbonio.Ldap.Connection.{
  IsLdap, check_server_availability-Emits, upload_binary-Emits, modify_enabled_services-Emits,
}
use service_discover.Command.Credentials.{upload_credentials, add_service_in_ldap}
use service_discover.Encrypter.Writer.{new_writer, close_writer, add_file, flush}
use service_discover.Prog.Emits.{check-Emits, try-Emits, mapped-Emits}
use service_discover.Steps.{
  IsStep, in_path-Emits, set_strict_permissions-Emits, save_bind_address-Emits,
  start_systemd_unit-Emits, enable_systemd_unit-Emits,
}
use service_discover.Server.Config.{SetupConfig}
use service_discover.Server.{Settings, generate_gossip_key, generate_certificate_and_config}
use service_discover.Json.{Codec}
use service_discover.Server.Archive.{add_files, create_encrypted_secret}
use service_discover.Server.Start.{enable_server, start_server, generate_certification_authority}
use service_discover.Server.FirstSetup.{publish_credentials, save_configuration}

pub ldap-IsStep : (c : Call) → IsLdap c → IsStep c
ldap-IsStep (create_temp _ _) k = absurd k
ldap-IsStep (write_file _ _ _) k = absurd k
ldap-IsStep (command_output _ _) k = absurd k
ldap-IsStep _ k = tt

new_writer-Emits : (password : String) → Emits IsStep (new_writer password)
unfolding new_writer
new_writer-Emits password =
    Emits-bind _ _ (try-Emits _ (Emits-ask armor_open tt) _)
      λ _. try-Emits _ (Emits-ask (pgp_open password) tt) _

close_writer-Emits : Emits IsStep close_writer
unfolding close_writer
close_writer-Emits = Emits-bind _ _ (check-Emits _ (Emits-ask tar_close tt)) λ _.
    Emits-bind _ _ (check-Emits _ (Emits-ask pgp_close tt))
      λ _. check-Emits _ (Emits-ask armor_close tt)

flush-Emits : Emits IsStep flush
unfolding flush
flush-Emits = check-Emits _ (Emits-ask tar_flush tt)

add_file-Emits :
    (reader : String) (stat : FileInfo) (name directory : String)
    → Emits IsStep (add_file reader stat name directory)
unfolding add_file
add_file-Emits reader stat name directory = Emits-bind _ _ (Emits-lift _) λ n.
    Emits-bind _ _ (check-Emits _ (Emits-ask (tar_header _) tt))
      λ _. check-Emits _ (Emits-ask (tar_copy reader) tt)

add_files-Emits : (files : List (String × String)) → Emits IsStep (add_files files)
unfolding add_files
add_files-Emits [] = Emits-pure tt
add_files-Emits ((name, path) ∷ files) =
    Emits-bind _ _ (try-Emits _ (Emits-ask (open_file path) tt) _) λ _.
      Emits-bind _ _ (try-Emits _ (Emits-ask (file_info path) tt) _) λ stat.
        Emits-bind _ _ (mapped-Emits _ (add_file-Emits path stat name "/") _)
          λ _. add_files-Emits files

pub create_encrypted_secret-Emits :
    (credential : String) (files : List (String × String)) (password : String)
    → Emits IsStep (create_encrypted_secret credential files password)
unfolding create_encrypted_secret
create_encrypted_secret-Emits credential files password =
    Emits-bind _ _ (try-Emits _ (Emits-ask (create_file credential) tt) _) λ _.
      Emits-deferring _ (close_file credential) tt (
        Emits-bind _ _ (try-Emits _ (Emits-ask (chmod credential 0o600) tt) _) λ _.
          Emits-bind _ _ (new_writer-Emits password) λ _.
            Emits-finally _ _ (Emits-bind _ _ (add_files-Emits files) (λ _. flush-Emits))
              close_writer-Emits)

pub enable_server-Emits : (container : Bool) → Emits IsStep (enable_server container)
unfolding enable_server
enable_server-Emits container =
    Emits-if container _ _ (Emits-pure tt) (mapped-Emits _ (enable_systemd_unit-Emits _) _)

pub generate_certification_authority-Emits :
    (s : Settings) → Emits IsStep (generate_certification_authority s)
unfolding generate_certification_authority
generate_certification_authority-Emits s =
    Emits-bind _ _ (mapped-Emits _ (in_path-Emits _ _ _ (λ e. cc)) _)
      λ _. Emits-bind _ _ (set_strict_permissions-Emits _) λ _. set_strict_permissions-Emits _

pub generate_gossip_key-Emits : (base64 : Base64) → Emits IsStep (generate_gossip_key base64)
unfolding generate_gossip_key
generate_gossip_key-Emits base64 =
    Emits-bind _ _ (try-Emits _ (Emits-ask (random_bytes 32) tt) _)
      λ read. Emits-if (read.0 == 32) _ _ (Emits-pure _) (Emits-fail _)

pub generate_certificate_and_config-Emits :
    (s : Settings) (host key : String) → Emits IsStep (generate_certificate_and_config s host key)
unfolding generate_certificate_and_config
generate_certificate_and_config-Emits s host key =
    Emits-bind _ _ (mapped-Emits _ (in_path-Emits _ _ _ (λ e. cc)) _) λ _.
      Emits-bind _ _ (set_strict_permissions-Emits _)
        λ _. Emits-bind _ _ (set_strict_permissions-Emits _) λ _. Emits-pure _

pub save_configuration-Emits :
    (codec : Codec) (s : Settings) (config : SetupConfig) (address : String)
    → Emits IsStep (save_configuration codec s config address)
unfolding save_configuration
save_configuration-Emits codec s config address = Emits-bind _ _ (Emits-lift _) λ content.
    Emits-bind _ _
      (try-Emits _ (Emits-ask (write_file s.consul_file_config content 0o600) (inl refl)) _)
      λ _. Emits-bind _ _ (set_strict_permissions-Emits _) λ _.
        Emits-bind _ _ (save_bind_address-Emits codec _ address) λ _. set_strict_permissions-Emits _

pub start_server-Emits : (container : Bool) → Emits IsStep (start_server container)
unfolding start_server
start_server-Emits container =
    Emits-if container _ _
      (try-Emits _ (Emits-ask (command_run "service-discoverd-docker" ("server" ∷ [])) tt) _)
      (mapped-Emits _ (start_systemd_unit-Emits _) _)

module _ (base64 : Base64) (c : LdapCredentials) where
  pub add_service_in_ldap-Emits :
      (host : String) → Emits IsStep (add_service_in_ldap (ldap_context base64 c) host)
  unfolding add_service_in_ldap add_service
  add_service_in_ldap-Emits host =
      mapped-Emits _ (modify_enabled_services-Emits ldap-IsStep c host _ change_add) _

  pub upload_credentials-Emits :
      (path : String) → Emits IsStep (upload_credentials (ldap_context base64 c) path)
  unfolding upload_credentials
  upload_credentials-Emits path =
      Emits-bind _ _ (mapped-Emits _ (check_server_availability-Emits ldap-IsStep c true) _) λ _.
        Emits-bind _ _ (try-Emits _ (Emits-ask (open_file path) tt) _) λ _.
          mapped-Emits _
            (upload_binary-Emits ldap-IsStep base64 c _ _ _
              (check-Emits _ (Emits-ask (read_file path) tt)))
            _

  module _ (ranged : List (String × String) → List (String × String)) (s : Settings) where
    pub publish_credentials-Emits :
        (acl_file gossip_file gossip_key password : String)
        → Emits IsStep (
            publish_credentials ranged s
              (ldap_context base64 c)
              acl_file
              gossip_file
              gossip_key
              password)
    unfolding publish_credentials
    publish_credentials-Emits acl_file gossip_file gossip_key password =
        Emits-bind _ _
          (check-Emits _ (Emits-ask (write_file gossip_file gossip_key 0o600) (inl refl)))
          λ _. Emits-bind _ _ (create_encrypted_secret-Emits _ _ password) λ _.
            Emits-bind _ _
              (check-Emits _
                (Emits-ask (write_file (s.consul_home <> "/password") s.password 0o400) (inr refl)))
              λ _. mapped-Emits _ (upload_credentials-Emits s.cluster_credential) _
