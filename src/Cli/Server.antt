-- ===== src/Cli/Server.antt =====
-- cmd/server: the record of the program's commands with what `main` puts into it, and `main`.
use service_discover.Common.{ℕ, String, Bool, false, List}
use service_discover.Errors.{Error, Result}
use service_discover.Json.{Codec}
use service_discover.Formatter.{OutputFormat, plain}
use service_discover.Prog.{Prog}
use service_discover.Carbonio.LocalConfig.{RawKey}
use service_discover.Carbonio.Ldap.{Base64}
use service_discover.Command.New.{
  new_command, new_version, new_bootstrap_token, new_help, new_config,
}
use service_discover.Command.Config.{mutable_config_file}
use service_discover.Command.ServiceToken.{Uuid}
use service_discover.Server.{Settings}
use service_discover.Server.Run.{run_server, run_server_wizard}
use service_discover.Cli.{Choice, Cli, no_service_token, run_main, print_version}

-- The constants of cmd/server/config.
abbrev pub application_name : String
application_name = "service-discover"

abbrev pub application_version : String
application_version = "0.1.0"

abbrev pub agent_name : String
agent_name = "agent"

-- `NewSetup`
abbrev pub new_setup : Settings
new_setup = record {
  consul_home = "/var/lib/service-discover";
  local_config_path = "/opt/zextras/conf/localconfig.xml";
  consul_data = "/var/lib/service-discover/data";
  consul_file_config = "/etc/zextras/service-discover/main.json";
  cluster_credential = "/etc/zextras/service-discover/cluster-credentials.tar.gpg";
  mutable_config_file = mutable_config_file;
  password = "";
  bind_address = "";
  first_instance = false;
}

-- The fields of `Wizard`. The setup that it points to is `main`'s, not the parsed one.
pub record Wizard : Type 0 where
  pub original_setup : Settings
  pub password : String
  pub bind_address : String
  pub first_instance : Bool

-- `NewWizardSetup`
abbrev pub new_wizard_setup : Settings → Wizard
new_wizard_setup setup = record {
  original_setup = setup;
  password = "";
  bind_address = "";
  first_instance = false;
}

-- `CLI`, with the setups of this program.
abbrev pub ServerCli : Type 0
ServerCli = Cli Settings Wizard

-- `CLI`, as `main` makes it.
abbrev pub new_cli : ServerCli
new_cli =
    let command = new_command application_name application_version in
    record {
      format = plain;
      setup = new_setup;
      wizard = new_wizard_setup new_setup;
      config = new_config command agent_name;
      bootstrap_token = new_bootstrap_token command agent_name;
      service_token = no_service_token;
      version = new_version command agent_name;
      help = new_help command;
    }

-- `BeforeApply` of `versionFlag`
abbrev pub before_apply : Prog Error (Unit {0})
before_apply = print_version application_name application_version

module _ (ranged : List (String × String) → List (String × String)) (codec : Codec)
    (html_quote : String → String) (fuel : ℕ) (base64 : Base64)
    (parse_xml : String → Result (List RawKey)) where
  -- `Wizard.Run` on the fields of the command: the flag for the first instance is its own.
  abbrev pub run_wizard_command : Wizard → OutputFormat → Prog Error (Unit {0})
  run_wizard_command w =
      run_server_wizard ranged codec html_quote fuel base64 parse_xml
        (record w.original_setup { first_instance = w.first_instance })

  module _ (uuid : Uuid) (parse : ServerCli → Prog Error (ServerCli × Choice))
      (validate : ServerCli → Choice → Result (Unit {0}))
      (fatal : Error → Prog Error (Unit {0})) where
    -- `main`
    unfoldable pub server_main : Prog Error (Unit {0})
    unfolding run_main
    server_main =
        run_main (run_server ranged codec html_quote fuel base64 parse_xml) run_wizard_command codec
          uuid parse validate fatal new_cli
