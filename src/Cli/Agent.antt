-- ===== src/Cli/Agent.antt =====
-- cmd/agent: the record of the program's commands with what `main` puts into it, and `main`.
use service_discover.Common.{ℕ, String, false, List}
use service_discover.Errors.{Error, Result}
use service_discover.Json.{Codec}
use service_discover.Formatter.{plain}
use service_discover.Prog.{Prog}
use service_discover.Carbonio.LocalConfig.{RawKey}
use service_discover.Carbonio.Ldap.{Base64}
use service_discover.Command.New.{
  new_command, new_version, new_bootstrap_token, new_help, new_config,
}
use service_discover.Command.Config.{mutable_config_file}
use service_discover.Command.ServiceToken.{Uuid}
use service_discover.Agent.Setup.{Settings, run, run_wizard}
use service_discover.Cli.{Choice, Cli, no_service_token, run_main, print_version}

-- The constants of cmd/agent/config.
abbrev pub application_name : String
application_name = "service-discover"

abbrev pub application_version : String
application_version = "0.1.0"

abbrev pub agent_name : String
agent_name = "agent"

-- `New`
abbrev pub new_setup : Settings
new_setup = record {
  consul_home = "/var/lib/service-discover";
  local_config_path = "/opt/zextras/conf/localconfig.xml";
  consul_data = "/var/lib/service-discover/data";
  consul_file_config = "/etc/zextras/service-discover/main.json";
  cluster_credential = "/etc/zextras/service-discover/cluster-credentials.tar.gpg";
  mutable_config_file = mutable_config_file;
  wizard = false;
  password = "";
  bind_address = "";
}

-- The fields of `Wizard`. The setup that it points to is `main`'s, not the parsed one.
pub record Wizard : Type 0 where
  pub original_setup : Settings
  pub password : String
  pub bind_address : String

-- `NewWizardSetup`
abbrev pub new_wizard_setup : Settings → Wizard
new_wizard_setup setup = record { original_setup = setup; password = ""; bind_address = "" }

-- `CLI`, as `main` makes it.
abbrev pub new_cli : Cli Settings Wizard
new_cli =
    let command = new_command application_name application_version in
    record {
      format = plain;
      setup = new_setup;
      wizard = new_wizard_setup new_setup;
      config = new_config command agent_name;
      bootstrap_token = new_bootstrap_token command agent_name;
      service_token = no_service_token;
      version = new_version command agent_name;
      help = new_help command;
    }

-- `BeforeApply` of `versionFlag`
abbrev pub before_apply : Prog Error (Unit {0})
before_apply = print_version application_name application_version

module _ (codec : Codec) (html_quote : String → String) (fuel : ℕ) (base64 : Base64)
    (parse_xml : String → Result (List RawKey)) (uuid : Uuid)
    (parse : Cli Settings Wizard → Prog Error (Cli Settings Wizard × Choice))
    (validate : Cli Settings Wizard → Choice → Result (Unit {0}))
    (fatal : Error → Prog Error (Unit {0})) where
  -- `main`
  unfoldable pub agent_main : Prog Error (Unit {0})
  unfolding run_main
  agent_main =
      run_main (run codec html_quote fuel parse_xml base64)
        (λ w. run_wizard codec html_quote fuel parse_xml base64 w.original_setup) codec uuid parse
        validate fatal new_cli
