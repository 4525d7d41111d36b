-- ===== src/Server/Bootstrap.antt =====
-- cmd/server/command/setup/firstsetup.go: `createACLBootstrapToken`. Its goroutine runs the command at
-- each tick until it has a result; the `select` takes the result or the end of the time, and where
-- both are there, either. A call of `time_over` is that choice: before a command it is the end of
-- the time, behind it the result is there. What a command still does when the time is over is lost.
pub mod Polling
pub mod Interleaving
use service_discover.Common.{ℕ, zero, suc, String, Option, none, some, List, [], ◌∷◌, if◌then◌else◌}
use service_discover.Text.{trim_space, contains_text}
use service_discover.Errors.{Error, message, as_exit_error, Result, ok, err}
use service_discover.Exec.{error_from_stderr}
use service_discover.World.{command_output, time_over}
use service_discover.Prog.{Prog, ask, fail, panic, result, maybe, ◌>>=◌}
use service_discover.Command.AclToken.{consul_bin}

abbrev pub no_cluster_leader : String
no_cluster_leader = "No cluster leader"

abbrev pub bootstrap_command : List String
bootstrap_command = "acl" ∷ "bootstrap" ∷ "-format" ∷ "json" ∷ []

abbrev pub failed_stderr : Error → (stderr : String) → Option (Result String)
failed_stderr e stderr =
    if contains_text (trim_space stderr) no_cluster_leader
    then none
    else some (err (error_from_stderr e "unable to create ACL bootstrap token"))

-- What the goroutine sends for the answer of its command; `none` polls again.
unfoldable pub sent : Result String → Option (Result String)
sent (ok text) = some (ok text)
sent (err e) = elim (as_exit_error e) [ none ↦ none | some stderr ↦ failed_stderr e stderr ]

abbrev pub bootstrap_timeout : Error
bootstrap_timeout = message "timeout reached while waiting for consul to be ready"

-- The rest of the `select`: the time may be over although a result is there.
abbrev pub receive : Result String → Prog Error String
receive r = do over ← ask (time_over 30_000); if over then fail bootstrap_timeout else result r

-- `createACLBootstrapToken`. Each tick takes fuel.
unfoldable pub create_acl_bootstrap_token : (fuel : ℕ) → Prog Error String
unfolding sent
create_acl_bootstrap_token zero = panic "out of fuel"
create_acl_bootstrap_token (suc fuel) = do
  over ← ask (time_over 30_000)
  let again = create_acl_bootstrap_token fuel in
      if over then fail bootstrap_timeout else (do
        answer ← ask (command_output consul_bin bootstrap_command)
        maybe (sent answer) again receive)
