-- ===== src/Examples/Interleavings.antt =====
-- The theorems on the goroutine of the bootstrap at concrete orders of its steps.
use service_discover.Common.{String, true, false, none, [], ◌∷◌, ◌≡◌, refl}
use service_discover.Errors.{ok, Result}
use service_discover.Server.Bootstrap.{sent}
use service_discover.Server.Bootstrap.Interleaving.{
  sends, exits, receives, gives_up, State, fires, ticks, answers, puts, takes, times_out, Reach,
  start, later, Finished,
}
use service_discover.Server.Bootstrap.Interleaving.Invariant.{Reach-sends}
use service_discover.Server.Bootstrap.Interleaving.Sequential.{Agrees, Reach-Agrees}
use service_discover.Examples.{quiet}

abbrev secret : Result String
secret = ok "{}"

-- The command bootstraps, and the `select` receives.
abbrev received : State
received = record {
  goroutine = exits;
  select = receives secret;
  channel = none;
  ticked = false;
  stopped = true;
  ran = secret ∷ [];
}

received-Reach : Reach received
unfolding sent
received-Reach =
    later
      (later (later (later (later start (fires refl)) (ticks refl refl)) (answers secret refl))
        (puts secret refl refl))
      (takes secret refl refl)

Reach-Agrees_example : Agrees quiet received.select received.ran
Reach-Agrees_example = Reach-Agrees quiet {s = received} received-Reach

-- The time is over while the command runs; it bootstraps all the same.
abbrev late : State
late = record {
  goroutine = sends secret;
  select = gives_up [];
  channel = none;
  ticked = false;
  stopped = true;
  ran = secret ∷ [];
}

late-Reach : Reach late
unfolding sent
late-Reach =
    later (later (later (later start (fires refl)) (ticks refl refl)) (times_out refl))
      (answers secret refl)

Reach-sends_example : (late.channel ≡ none) × Finished secret late.ran
Reach-sends_example = Reach-sends {s = late} secret late-Reach refl
