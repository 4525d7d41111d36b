-- ===== src/Command/Credentials.antt =====
-- pkg/command/common.go: the cluster credentials, the host name and the bind address. An open file
-- is its path.
use service_discover.Common.{String, ◌<>◌, true, false, [], ◌∷◌, if◌then◌else◌}
use service_discover.Text.{first_part, contains_text}
use service_discover.Errors.{Error, message, wrapped, error_text, not_exist}
use service_discover.Json.{Json, str, obj, object, Codec}
use service_discover.World.{open_file, read_file, write_file}
use service_discover.Prog.{Prog, ask, check, pure, map_error, lift, result, ◌>>=◌, ◌>>◌}
use service_discover.Carbonio.LocalConfig.{LocalConfig, value, server_hostname}
use service_discover.Carbonio.Ldap.{LdapHandler, config_base_dn, attr_credentials, service_name}

abbrev pub ldap_connect_failed : String
ldap_connect_failed = "unable to connect to ldap"

abbrev pub open_error : String → Error → Error
open_error path (not_exist _) = message (
    "cannot find Cluster credential in "
    <> (path <> ", please copy the file from the existing server or upload it to LDAP"))
open_error path e = wrapped "unable to open cluster credential file. Is it corrupted?" e

-- `OpenClusterCredential`
unfoldable pub open_cluster_credential : (path : String) → Prog Error String
open_cluster_credential path = do
  map_error (check (ask (open_file path))) (open_error path)
  pure path

-- `UploadCredentialsToLDAP`
unfoldable pub upload_credentials : LdapHandler → (credentials : String) → Prog Error (Unit {0})
upload_credentials ldap credentials = do
  map_error (ldap.check_availability true) (wrapped ldap_connect_failed)
  map_error (check (ask (open_file credentials))) (wrapped "unable to read credentials file")
  map_error
      (ldap.upload_binary (check (ask (read_file credentials))) config_base_dn attr_credentials)
      (wrapped "unable to upload data to ldap")

-- `DownloadCredentialsFromLDAP`
unfoldable pub download_credentials : LdapHandler → (destination : String) → Prog Error (Unit {0})
download_credentials ldap destination = do
  map_error (ldap.check_availability false) (wrapped ldap_connect_failed)
  content ←
      map_error (ldap.download_binary config_base_dn attr_credentials)
        (wrapped "unable to download data from ldap")
  check (ask (write_file destination content 0o600))

-- `RetrieveZimbraHostname`
unfoldable pub retrieve_hostname : LocalConfig → LdapHandler → Prog Error String
retrieve_hostname config ldap = do
  map_error (ldap.check_availability true) (wrapped ldap_connect_failed)
  lift (value config server_hostname)

-- `AddServiceInLDAP`
unfoldable pub add_service_in_ldap : LdapHandler → (hostname : String) → Prog Error (Unit {0})
add_service_in_ldap ldap hostname =
    map_error (ldap.add_service hostname service_name)
      (λ e. message ("cannot add service in ldap: " <> error_text e))

-- `MutableConsulConfig`
abbrev pub mutable_config : (bind_address : String) → Json
mutable_config bind_address = obj (object (("bind_addr", str bind_address) ∷ []))

-- The address that is saved: without the width of its network.
unfoldable pub saved_address : String → String
unfolding contains_text first_part
saved_address b = if contains_text b "/" then first_part b b'/' else b

module _ (codec : Codec) where
  -- `SaveBindAddressConfiguration`
  unfoldable pub save_bind_address : (path bind_address : String) → Prog Error (Unit {0})
  unfolding saved_address
  save_bind_address path bind_address = do
    bytes ← result (codec.print_indent (mutable_config (saved_address bind_address)))
    check (ask (write_file path bytes 0o600))
