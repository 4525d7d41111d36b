-- ===== src/Server/Config.antt =====
-- cmd/server/command/setup/common.go: the structs of Consul's configuration and their JSON.
use service_discover.Common.{String, ◌<>◌, Bool, true, List, [], ◌∷◌, ◌++◌, if◌then◌else◌}
use service_discover.Number.{ℤ, pos, number_text}
use service_discover.Json.{Json, num, str, bool, obj, object}

-- `autoEncrypt`
pub record AutoEncrypt : Type 0 where
  pub allow_tls : Bool

abbrev marshal_auto_encrypt : AutoEncrypt → Json
marshal_auto_encrypt c = obj (object (("allow_tls", bool c.allow_tls) ∷ []))

-- `aclConfig`
pub record AclConfig : Type 0 where
  pub enabled : Bool
  pub default_policy : String
  pub down_policy : String
  pub enable_token_persistence : Bool

abbrev marshal_acl : AclConfig → Json
marshal_acl c = obj (
    object (
      ("enabled", bool c.enabled)
      ∷ ("default_policy", str c.default_policy)
      ∷ ("down_policy", str c.down_policy)
      ∷ ("enable_token_persistence", bool c.enable_token_persistence)
      ∷ []))

-- `uiConfig`
pub record UiConfig : Type 0 where
  pub enabled : Bool

abbrev marshal_ui : UiConfig → Json
marshal_ui c = obj (object (("enabled", bool c.enabled) ∷ []))

-- `portsConfig`
pub record PortsConfig : Type 0 where
  pub grpc : ℤ
  pub grpc_tls : ℤ

abbrev marshal_ports : PortsConfig → Json
marshal_ports c =
    obj (
      object (("grpc", num (number_text c.grpc)) ∷ ("grpc_tls", num (number_text c.grpc_tls)) ∷ []))

-- `connectConfig`
pub record ConnectConfig : Type 0 where
  pub enabled : Bool
  pub ca_provider : String

abbrev marshal_connect : ConnectConfig → Json
marshal_connect c =
    obj (object (("enabled", bool c.enabled) ∷ ("ca_provider", str c.ca_provider) ∷ []))

-- `tlsDefaults`
pub record TlsDefaults : Type 0 where
  pub ca_file : String
  pub cert_file : String
  pub key_file : String
  pub verify_incoming : Bool
  pub verify_outgoing : Bool

abbrev marshal_tls_defaults : TlsDefaults → Json
marshal_tls_defaults c = obj (
    object (
      ("ca_file", str c.ca_file)
      ∷ ("cert_file", str c.cert_file)
      ∷ ("key_file", str c.key_file)
      ∷ ("verify_incoming", bool c.verify_incoming)
      ∷ ("verify_outgoing", bool c.verify_outgoing)
      ∷ []))

-- `tlsInternalRPC`
pub record TlsInternalRpc : Type 0 where
  pub verify_server_hostname : Bool

abbrev marshal_internal_rpc : TlsInternalRpc → Json
marshal_internal_rpc c =
    obj (object (("verify_server_hostname", bool c.verify_server_hostname) ∷ []))

-- `tlsConfig`
pub record TlsConfig : Type 0 where
  pub defaults : TlsDefaults
  pub internal_rpc : TlsInternalRpc

abbrev marshal_tls : TlsConfig → Json
marshal_tls c = obj (
    object (
      ("defaults", marshal_tls_defaults c.defaults)
      ∷ ("internal_rpc", marshal_internal_rpc c.internal_rpc)
      ∷ []))

-- `setupConfig`
pub record SetupConfig : Type 0 where
  pub acl_config : AclConfig
  pub auto_encrypt : AutoEncrypt
  pub data_dir : String
  pub enable_local_script_checks : Bool
  pub encrypt : String
  pub log_level : String
  pub node_name : String
  pub server : Bool
  pub ui_config : UiConfig
  pub ports : PortsConfig
  pub connect : ConnectConfig
  pub tls : TlsConfig

-- The field `auto_encrypt` has `omitzero`.
abbrev auto_encrypt_field : AutoEncrypt → List (String × Json)
auto_encrypt_field c = if c.allow_tls then ("auto_encrypt", marshal_auto_encrypt c) ∷ [] else []

abbrev pub marshal_setup_config : SetupConfig → Json
marshal_setup_config c = obj (
    object (
      ("acl", marshal_acl c.acl_config)
      ∷ (auto_encrypt_field c.auto_encrypt
          ++ (("data_dir", str c.data_dir)
              ∷ ("enable_local_script_checks", bool c.enable_local_script_checks)
              ∷ ("encrypt", str c.encrypt)
              ∷ ("log_level", str c.log_level)
              ∷ ("node_name", str c.node_name)
              ∷ ("server", bool c.server)
              ∷ ("ui_config", marshal_ui c.ui_config)
              ∷ ("ports", marshal_ports c.ports)
              ∷ ("connect", marshal_connect c.connect)
              ∷ ("tls", marshal_tls c.tls)
              ∷ []))))

-- The configuration that `generateCertificateAndConfig` makes.
abbrev pub setup_config : (home data_dir gossip_key node_name : String) → SetupConfig
setup_config home data_dir gossip_key node_name = record {
  acl_config = record {
    enabled = true;
    default_policy = "deny";
    down_policy = "extend-cache";
    enable_token_persistence = true;
  };
  auto_encrypt = record { allow_tls = true };
  data_dir = data_dir;
  enable_local_script_checks = true;
  encrypt = gossip_key;
  log_level = "INFO";
  node_name = node_name;
  server = true;
  ui_config = record { enabled = true };
  ports = record { grpc = pos 8502; grpc_tls = pos 8503 };
  connect = record { enabled = true; ca_provider = "" };
  tls = record {
    defaults = record {
      ca_file = home <> "/consul-agent-ca.pem";
      cert_file = home <> "/dc1-server-consul-0.pem";
      key_file = home <> "/dc1-server-consul-0-key.pem";
      verify_incoming = true;
      verify_outgoing = true;
    };
    internal_rpc = record { verify_server_hostname = true };
  };
}
