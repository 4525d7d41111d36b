-- ===== src/Server.antt =====
-- cmd/server/command/setup/common.go: what the server's setup asks for, the choice between the first
-- and a further instance, and the configuration that it writes.
pub mod Config
pub mod Leader
pub mod Bootstrap
pub mod Archive
pub mod Start
pub mod FirstSetup
pub mod Credential
pub mod ImportSetup
pub mod Run
pub mod Terminal
use service_discover.Common.{
  ℕ, String, ◌<>◌, Bool, true, false, ◌==◌, ◌is◌, List, [], ◌∷◌, if◌then◌else◌, length, leb,
}
use service_discover.Errors.{Error, message, error_text, Result, ok, err}
use service_discover.Json.{Json, str, num, bool, obj, object}
use service_discover.FilePath.{join_path}
use service_discover.World.{addr_resolver, read_password, random_bytes}
use service_discover.Prog.{Prog, ask, check, pure, fail, on_error, map_error, ◌>>=◌, ◌>>◌}
use service_discover.Permissions.{set_strict_permissions}
use service_discover.Exec.{in_path}
use service_discover.Term.{must_read, must_read_line, must_write}
use service_discover.Carbonio.LocalConfig.{RawKey, load_local_config}
use service_discover.Carbonio.Ldap.{Base64, create_new_handler, service_name}
use service_discover.Command.Network.{
  non_loopback_interfaces, addrs_to_single_string, check_valid_binding_address,
}
use service_discover.Command.Credentials.{open_cluster_credential}
use service_discover.Command.AclToken.{server, consul_bin, consul_node_name}
use service_discover.Agent.{SetupConfiguration}
use service_discover.Server.Config.{SetupConfig, setup_config}

-- The fields of `Setup`.
pub record Settings : Type 0 where
  pub consul_home : String
  pub local_config_path : String
  pub consul_data : String
  pub consul_file_config : String
  pub cluster_credential : String
  pub mutable_config_file : String
  pub password : String
  pub bind_address : String
  pub first_instance : Bool

-- The loop of `wizardBindAddressSelection` over the networks.
unfoldable pub show_addresses : (networks : List String) → Prog Error (Unit {0})
show_addresses [] = pure tt
show_addresses (n ∷ networks) = do
  addrs ← check (ask (addr_resolver n))
  must_write (n <> (" " <> (addrs_to_single_string addrs ", " <> "\n")))
  show_addresses networks

-- `wizardBindAddressSelection`
unfoldable pub wizard_bind_address_selection : Prog Error String
unfolding show_addresses
wizard_bind_address_selection = do
  networks ← non_loopback_interfaces
  if leb 2 (length networks) then must_write "Multiple network cards detected:\n" else pure tt
  show_addresses networks
  must_write "Specify the binding address for service discovery: "
  address ← must_read_line
  check_valid_binding_address networks address
  pure address

abbrev must_read_password : (prompt : String) → Prog Error String
must_read_password prompt = must_read (ask (read_password prompt))

-- The password of `gatherInputs`: typed twice for a new cluster.
unfoldable pub ask_new_password : Prog Error String
ask_new_password = do
  first ← must_read_password "Create the cluster credentials password (will be used for setups): "
  password ← must_read_password "Type the credential password again: "
  if password is first then pure password else fail (message "passwords do not match")

-- `gatherInputs`
unfoldable pub gather_inputs : (first_instance : Bool) → Prog Error SetupConfiguration
unfolding wizard_bind_address_selection ask_new_password
gather_inputs first_instance = do
  address ← wizard_bind_address_selection
  password ←
      if first_instance
      then ask_new_password
      else must_read_password "Insert the cluster credential password: "
  pure (record { password = password; bind_address = address })

module _ (parse_xml : String → Result (List RawKey)) (base64 : Base64) where
  -- `isFirstInstance`
  unfoldable pub is_first_instance : Settings → Prog Error Bool
  is_first_instance s =
      on_error (do _ ← open_cluster_credential s.cluster_credential; pure false)
        λ (e : Error). do
          config ← load_local_config parse_xml s.local_config_path
          ldap ← create_new_handler base64 config
          servers ← ldap.query_all_servers service_name
          pure (length servers == 0)

-- `generateGossipKey`
unfoldable pub generate_gossip_key : Base64 → Prog Error String
generate_gossip_key base64 = do
  (count, key) ←
      map_error (check (ask (random_bytes 32)))
        (λ e. message ("error reading random data: " <> error_text e))
  if count == 32
      then pure (base64.encode key)
      else fail (message "couldn't read enough entropy. Generate more entropy")

-- `generateCertificateAndConfig`
unfoldable pub generate_certificate_and_config :
    Settings → (hostname gossip_key : String) → Prog Error SetupConfig
generate_certificate_and_config s hostname gossip_key = do
  map_error
      (in_path consul_bin ("tls" ∷ "cert" ∷ "create" ∷ "-days=10950" ∷ "-server" ∷ [])
        s.consul_home)
      (λ _. message "unable to create a valid certificate with Consul")
  set_strict_permissions (join_path s.consul_home "dc1-server-consul-0-key.pem")
  set_strict_permissions (join_path s.consul_home "dc1-server-consul-0.pem")
  pure (setup_config s.consul_home s.consul_data gossip_key (consul_node_name server hostname))
