-- ===== src/Agent.antt =====
-- cmd/agent/command/setup: what the agent's setup asks for, its checks, and the configuration that it
-- writes. The steps of the setup are in Agent/Setup.
pub mod Config
pub mod Setup
pub mod KeyFile
pub mod Removal
pub mod Ordering
use service_discover.Common.{
  ℕ, String, ◌<>◌, Bool, true, false, List, [], ◌∷◌, ◌==◌, if◌then◌else◌, length, leb,
}
use service_discover.Errors.{Error, message, error_text, as_not_terminal, Result, ok, err}
use service_discover.Json.{Json, str, num, bool, obj, object}
use service_discover.World.{addr_resolver, term_write, read_password, command_run, getuid, stat}
use service_discover.Prog.{
  Prog, ask, check, pure, fail, panic, on_error, map_error, either, maybe, ◌>>=◌, ◌>>◌,
}
use service_discover.Command.Network.{
  non_loopback_interfaces, addrs_to_single_string, check_valid_binding_address,
}
use service_discover.Command.AclToken.{consul_bin}
use service_discover.Formatter.{OutputFormat, plain}
use service_discover.Term.{line_break, must_read_line, must_write}

-- `setupConfiguration`
pub record SetupConfiguration : Type 0 where
  pub password : String
  pub bind_address : String

-- The loop of `gatherInputs` over the networks.
unfoldable pub show_networks : (networks : List String) → Prog Error (Unit {0})
show_networks [] = pure tt
show_networks (n ∷ networks) = do
  addrs ← check (ask (addr_resolver n))
  must_write (n <> (" " <> (addrs_to_single_string addrs ", " <> line_break)))
  show_networks networks

-- `gatherInputs`
unfoldable pub gather_inputs : Prog Error SetupConfiguration
unfolding show_networks
gather_inputs = do
  networks ← non_loopback_interfaces
  if leb 2 (length networks)
      then must_write ("Multiple network cards detected:" <> line_break)
      else pure tt
  show_networks networks
  must_write "Specify the binding address for service discovery: "
  address ← must_read_line
  check_valid_binding_address networks address
  password ←
      on_error (check (ask (read_password "Insert the cluster credential password: ")))
        (λ e. maybe (as_not_terminal e) (fail e) (λ _. must_read_line))
  pure (record { password = password; bind_address = address })

abbrev pub main_config_file : String
main_config_file = "/etc/zextras/service-discover/main.json"

-- `preRun`
unfoldable pub pre_run : Prog Error (Unit {0})
pre_run = do
  map_error (check (ask (command_run consul_bin ("version" ∷ []))))
      (λ e. message ("unable to execute consul binary: " <> error_text e))
  uid ← ask getuid
  if uid == 0 then pure tt else fail (message "this command must be executed as root")
  found ← ask (stat main_config_file)
  either found
      (λ _.
        fail (message "setup of service-discover already performed, manually reset and try again"))
      (λ _. pure tt)

-- The check of `Wizard.Run` on the format.
abbrev pub only_plain : OutputFormat → Prog Error (Unit {0})
only_plain plain = pure tt
only_plain _ = fail (message "only plain formatting is supported when in wizard mode")
