-- ===== src/Server/Leader.antt =====
-- cmd/server/command/setup/firstsetup.go: `waitForConsulLeader`. Times are in milliseconds.
pub mod Election
use service_discover.Common.{ℕ, zero, suc, ◌+◌, String, Bool, false, ◌is◌, not, ltb, if◌then◌else◌}
use service_discover.Errors.{Error, message, wrapped, Result, ok, err}
use service_discover.World.{consul_leader, now, sleep}
use service_discover.Prog.{Prog, ask, pure, fail, panic, ◌>>=◌}

-- The two variables that drive the loop.
abbrev pub poll_interval : ℕ
poll_interval = 250

abbrev pub leader_timeout : ℕ
leader_timeout = 60_000

-- `err == nil && leader != ""`
abbrev pub is_elected : Result String → Bool
is_elected (ok leader) = not (leader is "")
is_elected (err _) = false

abbrev pub leader_error : Result String → Error
leader_error (ok _) = message "timeout reached while waiting for consul leader election"
leader_error (err e) = wrapped "timeout reached while waiting for consul leader election" e

-- The loop. Each round takes the fuel of one poll.
unfoldable pub poll_leader : (fuel deadline : ℕ) → Prog Error (Unit {0})
poll_leader zero deadline = panic "out of fuel"
poll_leader (suc fuel) deadline = do
  answer ← ask consul_leader
  let again = poll_leader fuel deadline in
      if is_elected answer then pure tt else (do
        time ← ask now
        if ltb deadline time
            then fail (leader_error answer)
            else (do _ ← ask (sleep poll_interval); again))

-- `waitForConsulLeader`
unfoldable pub wait_for_consul_leader : (fuel : ℕ) → Prog Error (Unit {0})
unfolding poll_leader
wait_for_consul_leader fuel = do time ← ask now; poll_leader fuel (time + leader_timeout)
