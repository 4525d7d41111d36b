-- ===== src/Cli.antt =====
-- cmd/agent/agent.go and cmd/server/server.go: the commands of the two programs. The kong library
-- parses the arguments: it fills the fields of the program's record, and chooses one of the commands
-- that the record declares, whose method `Run` then runs.
pub mod Agent
pub mod Server
pub mod Local
use service_discover.Common.{String, ◌<>◌, []}
use service_discover.Errors.{Error, error_text, Result}
use service_discover.Json.{Codec}
use service_discover.Formatter.{OutputFormat}
use service_discover.World.{print, exit_process}
use service_discover.Prog.{Prog, ask, panic, on_error, either, ◌>>=◌}
use service_discover.Command.New.{VersionCommand, BootstrapTokenCommand, HelpCommand, ConfigCommand}
use service_discover.Command.Version.{run_version, run_help}
use service_discover.Command.Config.{get_config, set_config, list_config}
use service_discover.Command.BootstrapToken.{run_bootstrap_token}
use service_discover.Command.ServiceToken.{Uuid}
use service_discover.Command.ServiceToken.Commands.{
  ServiceToken, EnsureServiceToken, PruneLegacyServiceTokens, run_ensure, run_prune_legacy,
}

-- The commands that the fields of `CLI` declare.
pub data Choice : Type 0 where
  choose_setup : Choice
  choose_wizard : Choice
  choose_get : Choice
  choose_set : Choice
  choose_list : Choice
  choose_bootstrap_token : Choice
  choose_ensure : Choice
  choose_prune_legacy : Choice
  choose_version : Choice
  choose_help : Choice

-- `CLI`, whose types of the two setups are the program's.
pub record Cli (Setup Wizard : Type 0) : Type 0 where
  pub format : OutputFormat
  pub setup : Setup
  pub wizard : Wizard
  pub config : ConfigCommand
  pub bootstrap_token : BootstrapTokenCommand
  pub service_token : ServiceToken
  pub version : VersionCommand
  pub help : HelpCommand

-- The zero value, which no program sets.
abbrev pub no_service_token : ServiceToken
no_service_token = record {
  ensure = record { service = ""; policy = ""; token_file = ""; owner = "" };
  prune_legacy = record { service = ""; policy = ""; legacy_service = [] };
}

-- `BeforeApply` of the flag `--version`
unfoldable pub print_version : (name version : String) → Prog Error (Unit {0})
print_version name version = do
  _ ← ask (print (name <> (" " <> (version <> "\n"))))
  ask (exit_process 0)

module _ {Setup Wizard : Type 0} (run_setup : Setup → OutputFormat → Prog Error (Unit {0}))
    (run_wizard : Wizard → OutputFormat → Prog Error (Unit {0})) (codec : Codec) (uuid : Uuid) where
  -- `ctx.Run`: the method `Run` of the chosen command, on its fields.
  unfoldable pub run_command : Cli Setup Wizard → Choice → Prog Error (Unit {0})
  run_command cli choose_setup = run_setup cli.setup cli.format
  run_command cli choose_wizard = run_wizard cli.wizard cli.format
  run_command cli choose_get = get_config codec cli.config.get.config cli.format
  run_command cli choose_set = set_config codec cli.config.set.config cli.config.set.value
  run_command cli choose_list = list_config codec cli.format
  run_command cli choose_bootstrap_token =
      let b = cli.bootstrap_token in
      run_bootstrap_token codec b.setup b.password b.cluster_credential_file_location cli.format
  run_command cli choose_ensure =
      let e = cli.service_token.ensure in run_ensure uuid e.service e.policy e.token_file e.owner
  run_command cli choose_prune_legacy =
      let p = cli.service_token.prune_legacy in
      run_prune_legacy uuid p.service p.policy p.legacy_service
  run_command cli choose_version =
      run_version codec cli.version.command cli.version.agent_name cli.format
  run_command cli choose_help = run_help cli.help.command

  -- `main` behind the making of the record. `parse`, `validate` and `fatal` are kong's.
  module _ (parse : Cli Setup Wizard → Prog Error (Cli Setup Wizard × Choice))
      (validate : Cli Setup Wizard → Choice → Result (Unit {0}))
      (fatal : Error → Prog Error (Unit {0})) where
    unfoldable pub run_main : Cli Setup Wizard → Prog Error (Unit {0})
    unfolding run_command
    run_main made = do
      (cli, choice) ← parse made
      either (validate cli choice) (λ _. on_error (run_command cli choice) fatal)
          (λ e. panic (error_text e))
