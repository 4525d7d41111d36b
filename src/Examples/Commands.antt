-- ===== src/Examples/Commands.antt =====
-- The theorem on the commands at a concrete input: the server's program as `main` makes it.
use service_discover.Common.{true}
use service_discover.Server.Run.{run_server}
use service_discover.Command.ServiceToken.{Uuid}
use service_discover.Cli.{run_command, choose_bootstrap_token}
use service_discover.Cli.Local.{Allows, run_command-Allows}
use service_discover.Cli.Server.{new_cli, run_wizard_command}
use service_discover.Examples.{no_json, plain_base64, parse_five}

abbrev uuid : Uuid
uuid = record { new_sha1 = λ s. s; is_valid = λ s. true }

run_command-Allows_example :
    Allows "/etc/zextras/service-discover/cluster-credentials.tar.gpg"
      new_cli.help.command.application_name choose_bootstrap_token
      (run_command
        (run_server (λ files. files) no_json (λ s. s) 121 plain_base64 parse_five)
        (run_wizard_command (λ files. files) no_json (λ s. s) 121 plain_base64 parse_five)
        no_json
        uuid
        new_cli
        choose_bootstrap_token)
run_command-Allows_example =
    run_command-Allows (run_server (λ files. files) no_json (λ s. s) 121 plain_base64 parse_five)
      (run_wizard_command (λ files. files) no_json (λ s. s) 121 plain_base64 parse_five) no_json
      uuid new_cli choose_bootstrap_token tt
