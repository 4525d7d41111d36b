-- ===== src/Command/Version.antt =====
-- pkg/command/version.go and pkg/command/help_unix.go: the commands for the version and for help.
use service_discover.Command.New.{Command}
use service_discover.Common.{String, ◌<>◌, [], ◌∷◌}
use service_discover.Text.{trim}
use service_discover.Errors.{Error, message, ok}
use service_discover.Json.{Codec, str, obj, object}
use service_discover.Formatter.{Formatter, OutputFormat, render}
use service_discover.World.{command_output, exec, term_write}
use service_discover.Prog.{Prog, ask, check, map_error, result, ◌>>=◌}

-- `outputVersion`
pub record OutputVersion : Type 0 where
  pub application_name : String
  pub cli_version : String
  pub agent_name : String
  pub agent_version : String

module _ (codec : Codec) where
  -- Its renderings.
  abbrev pub version_output : OutputVersion → Formatter
  version_output o = record {
    plain_render = ok (
        o.application_name
        <> (" version: "
            <> (o.cli_version
                <> ("\n" <> (o.agent_name <> (" version: " <> (o.agent_version <> "\n")))))));
    json_render = codec.print (
        obj (
          object
            (("cli_version", str o.cli_version) ∷ ("agent_version", str o.agent_version) ∷ [])));
  }

  -- `Version.Run`
  unfoldable pub run_version :
      Command → (agent_name : String) → OutputFormat → Prog Error (Unit {0})
  run_version c agent_name format = do
    out ← result (
        render
          (version_output (record {
            application_name = c.application_name;
            cli_version = c.application_version;
            agent_name = agent_name;
            agent_version = "N/A";
          }))
          format)
    check (ask (term_write out))

-- `Help.Run`: it becomes `man` if there is one.
unfoldable pub run_help : Command → Prog Error (Unit {0})
run_help c = do
  out ← map_error (check (ask (command_output "which" ("man" ∷ [])))) (λ _.
      message
        "unable to detect man package in this system. Please install it in order to see detailed manual instructions")
  check (ask (exec (trim out b'\n') ("" ∷ c.application_name ∷ []) []))
