-- ===== src/Command/New.antt =====
-- pkg/command/command.go: the commands that both programs share, as their constructors make them. The
-- writer of each is standard output, and files are read and written through the os library.
use service_discover.Common.{String, Bool, false}

-- `Command`
pub record Command : Type 0 where
  pub application_name : String
  pub application_version : String

-- `NewCommand`
abbrev pub new_command : (application_name application_version : String) → Command
new_command application_name application_version = record {
  application_name = application_name;
  application_version = application_version;
}

-- `Version`
pub record VersionCommand : Type 0 where
  pub command : Command
  pub agent_name : String

-- `BootstrapToken`
pub record BootstrapTokenCommand : Type 0 where
  pub command : Command
  pub agent_name : String
  pub setup : Bool
  pub password : String
  pub cluster_credential_file_location : String

-- `Help`
pub record HelpCommand : Type 0 where
  pub command : Command

-- `GetConfig`
pub record GetConfig : Type 0 where
  pub command : Command
  pub agent_name : String
  pub config : String

-- `SetConfig`
pub record SetConfig : Type 0 where
  pub command : Command
  pub agent_name : String
  pub config : String
  pub value : String

-- `ListConfig`
pub record ListConfig : Type 0 where
  pub command : Command
  pub agent_name : String

-- `Config`
pub record ConfigCommand : Type 0 where
  pub command : Command
  pub agent_name : String
  pub get : GetConfig
  pub set : SetConfig
  pub list : ListConfig

-- The method `Version` of `Command`, and likewise the others.
abbrev pub new_version : Command → (agent_name : String) → VersionCommand
new_version c agent_name = record { command = c; agent_name = agent_name }

abbrev pub new_bootstrap_token : Command → (agent_name : String) → BootstrapTokenCommand
new_bootstrap_token c agent_name = record {
  command = c;
  agent_name = agent_name;
  setup = false;
  password = "";
  cluster_credential_file_location = "/etc/zextras/service-discover/cluster-credentials.tar.gpg";
}

abbrev pub new_help : Command → HelpCommand
new_help c = record { command = c }

abbrev pub new_config : Command → (agent_name : String) → ConfigCommand
new_config c agent_name = record {
  command = c;
  agent_name = agent_name;
  get = record { command = c; agent_name = agent_name; config = "" };
  set = record { command = c; agent_name = agent_name; config = ""; value = "" };
  list = record { command = c; agent_name = agent_name };
}
