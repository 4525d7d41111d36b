-- ===== src/Server/Run.antt =====
-- cmd/server/command/setup/common.go and wizard.go: the commands `setup` and `setup wizard`.
use service_discover.Common.{ℕ, String, Bool, true, List, ◌is◌, ◌&&◌, if◌then◌else◌}
use service_discover.Errors.{Error, message, Result}
use service_discover.Json.{Codec}
use service_discover.World.{print}
use service_discover.Prog.{Prog, ask, pure, fail, result, ◌>>=◌, ◌>>◌}
use service_discover.Formatter.{Formatter, OutputFormat, render}
use service_discover.Term.{must_write, with_terminal}
use service_discover.Carbonio.LocalConfig.{RawKey}
use service_discover.Carbonio.Ldap.{Base64}
use service_discover.Agent.{pre_run, only_plain}
use service_discover.Server.{Settings, gather_inputs, is_first_instance}
use service_discover.Server.FirstSetup.{first_setup}
use service_discover.Server.ImportSetup.{import_setup}

module _ (ranged : List (String × String) → List (String × String)) (codec : Codec)
    (html_quote : String → String) (fuel : ℕ) (base64 : Base64)
    (parse_xml : String → Result (List RawKey)) where
  -- The choice of both commands: a first instance that was asked for is not looked for.
  unfoldable pub choose_instance : Settings → Prog Error Bool
  choose_instance s = if s.first_instance then pure true else is_first_instance parse_xml base64 s

  -- The setup of that kind.
  unfoldable pub setup_instance : Settings → (first : Bool) → Prog Error Formatter
  setup_instance s first =
      if first
      then first_setup ranged codec html_quote fuel base64 parse_xml s
      else import_setup codec html_quote fuel parse_xml base64 s

  -- `Setup.Run`
  unfoldable pub run_server : Settings → OutputFormat → Prog Error (Unit {0})
  unfolding choose_instance setup_instance
  run_server s format = with_terminal (do
    pre_run
    if (s.password is "") && (s.bind_address is "")
        then fail (message "missing arguments")
        else pure tt
    first ← choose_instance s
    out ← setup_instance s first
    text ← result (render out format)
    ask (print text))

  abbrev pub instance_title : (first : Bool) → String
  instance_title first =
      if first
      then "Setup of first service-discover server instance\r\n"
      else "Setup of secondary service-discover server instance\r\n"

  -- `Wizard.Run`
  unfoldable pub run_server_wizard : Settings → OutputFormat → Prog Error (Unit {0})
  unfolding choose_instance setup_instance
  run_server_wizard s format = with_terminal (do
    pre_run
    only_plain format
    first ← choose_instance s
    must_write (instance_title first)
    inputs ← gather_inputs first
    _ ←
        setup_instance
          (record s {
            password = inputs.password;
            bind_address = inputs.bind_address;
            first_instance = first;
          })
          first
    pure tt)
