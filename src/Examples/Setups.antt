-- ===== src/Examples/Setups.antt =====
-- The theorem on the agent's setup at a concrete input: an archive with the four files.
use service_discover.Common.{String, false, List, [], ◌∷◌}
use service_discover.Errors.{ok}
use service_discover.World.{Call, Answer, Env, Item, entry, read_message}
use service_discover.Agent.Setup.{Settings}
use service_discover.Prog.Files.{FileState, absent}
use service_discover.Examples.{answer}

abbrev pub settings : Settings
settings = record {
  consul_home = "/var/lib/service-discover";
  local_config_path = "/opt/zextras/conf/localconfig.xml";
  consul_data = "/var/lib/service-discover/data";
  consul_file_config = "/etc/zextras/service-discover/main.json";
  cluster_credential = "/etc/zextras/service-discover/cluster-credentials.tar.gpg";
  mutable_config_file = "/etc/zextras/service-discover/config.json";
  wizard = false;
  password = "p";
  bind_address = "10.0.0.1";
}

abbrev items : List Item
items =
    entry "var/lib/service-discover/consul-agent-ca.pem" (ok "ca")
    ∷ entry "var/lib/service-discover/consul-agent-ca-key.pem" (ok "key")
    ∷ entry "gossip-key" (ok "gossip")
    ∷ entry "consul-acl-secret.json" (ok "{}")
    ∷ []

abbrev reply_archive : (c : Call) → Answer c
reply_archive (read_message _ _) = ok items
reply_archive c = answer c

abbrev pub unpacked : Env
unpacked = record { reply = λ h c. reply_archive c }

abbrev no_files : String → FileState
no_files path = absent
