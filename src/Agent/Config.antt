-- ===== src/Agent/Config.antt =====
-- cmd/agent/command/setup/setup.go: the structs of Consul's configuration and their JSON.
use service_discover.Common.{String, ◌<>◌, Bool, true, false, [], ◌∷◌}
use service_discover.Number.{ℤ, pos, number_text}
use service_discover.Json.{Json, num, str, bool, obj, object}

-- `aclConfig`
pub record AclConfig : Type 0 where
  pub enabled : Bool
  pub default_policy : String
  pub enable_token_persistence : Bool
  pub down_policy : String

abbrev marshal_acl : AclConfig → Json
marshal_acl c = obj (
    object (
      ("enabled", bool c.enabled)
      ∷ ("default_policy", str c.default_policy)
      ∷ ("enable_token_persistence", bool c.enable_token_persistence)
      ∷ ("down_policy", str c.down_policy)
      ∷ []))

-- `uiConfig`
pub record UiConfig : Type 0 where
  pub enabled : Bool

abbrev marshal_ui : UiConfig → Json
marshal_ui c = obj (object (("enabled", bool c.enabled) ∷ []))

-- `portsConfig`
pub record PortsConfig : Type 0 where
  pub grpc : ℤ
  pub grpc_tls : ℤ

abbrev marshal_ports : PortsConfig → Json
marshal_ports c =
    obj (
      object (("grpc", num (number_text c.grpc)) ∷ ("grpc_tls", num (number_text c.grpc_tls)) ∷ []))

-- `tlsDefaults`
pub record TlsDefaults : Type 0 where
  pub ca_file : String
  pub cert_file : String
  pub key_file : String
  pub verify_incoming : Bool
  pub verify_outgoing : Bool

abbrev marshal_tls_defaults : TlsDefaults → Json
marshal_tls_defaults c = obj (
    object (
      ("ca_file", str c.ca_file)
      ∷ ("cert_file", str c.cert_file)
      ∷ ("key_file", str c.key_file)
      ∷ ("verify_incoming", bool c.verify_incoming)
      ∷ ("verify_outgoing", bool c.verify_outgoing)
      ∷ []))

-- `tlsInternalRPC`
pub record TlsInternalRpc : Type 0 where
  pub verify_server_hostname : Bool

abbrev marshal_internal_rpc : TlsInternalRpc → Json
marshal_internal_rpc c =
    obj (object (("verify_server_hostname", bool c.verify_server_hostname) ∷ []))

-- `tlsConfig`
pub record TlsConfig : Type 0 where
  pub defaults : TlsDefaults
  pub internal_rpc : TlsInternalRpc

abbrev marshal_tls : TlsConfig → Json
marshal_tls c = obj (
    object (
      ("defaults", marshal_tls_defaults c.defaults)
      ∷ ("internal_rpc", marshal_internal_rpc c.internal_rpc)
      ∷ []))

-- `setupConfig`
pub record SetupConfig : Type 0 where
  pub acl_config : AclConfig
  pub data_dir : String
  pub enable_local_script_checks : Bool
  pub encrypt : String
  pub log_level : String
  pub node_name : String
  pub server : Bool
  pub ui_config : UiConfig
  pub ports : PortsConfig
  pub tls : TlsConfig

abbrev pub marshal_setup_config : SetupConfig → Json
marshal_setup_config c = obj (
    object (
      ("acl", marshal_acl c.acl_config)
      ∷ ("data_dir", str c.data_dir)
      ∷ ("enable_local_script_checks", bool c.enable_local_script_checks)
      ∷ ("encrypt", str c.encrypt)
      ∷ ("log_level", str c.log_level)
      ∷ ("node_name", str c.node_name)
      ∷ ("server", bool c.server)
      ∷ ("ui_config", marshal_ui c.ui_config)
      ∷ ("ports", marshal_ports c.ports)
      ∷ ("tls", marshal_tls c.tls)
      ∷ []))

-- The configuration that `setup` makes.
abbrev pub setup_config : (home data_dir gossip_key node_name : String) → SetupConfig
setup_config home data_dir gossip_key node_name = record {
  acl_config = record {
    enabled = true;
    default_policy = "deny";
    down_policy = "extend-cache";
    enable_token_persistence = true;
  };
  data_dir = data_dir;
  enable_local_script_checks = true;
  encrypt = gossip_key;
  log_level = "INFO";
  node_name = node_name;
  server = false;
  ui_config = record { enabled = true };
  ports = record { grpc = pos 8502; grpc_tls = pos 8503 };
  tls = record {
    defaults = record {
      ca_file = home <> "/consul-agent-ca.pem";
      cert_file = home <> "/dc1-client-consul-0.pem";
      key_file = home <> "/dc1-client-consul-0-key.pem";
      verify_incoming = true;
      verify_outgoing = true;
    };
    internal_rpc = record { verify_server_hostname = true };
  };
}
