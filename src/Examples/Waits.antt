-- ===== src/Examples/Waits.antt =====
-- The theorems on the waits of the server's setup at concrete inputs.
use service_discover.Common.{ℕ, ◌+◌, ◌≤◌, List, [], ◌∷◌, refl, String, arith, ltb}
use service_discover.Errors.{ok, err, Result, exit_error}
use service_discover.World.{Call, Answer, Env, now, sleep, consul_leader, command_output, time_over}
use service_discover.Server.Leader.{wait_for_consul_leader}
use service_discover.Server.Leader.Election.{Clock, Waited, wait_for_consul_leader-Waited}
use service_discover.Server.Bootstrap.{create_acl_bootstrap_token}
use service_discover.Server.Bootstrap.Polling.{
  runs, Bootstrapped, create_acl_bootstrap_token-Bootstrapped,
}
use service_discover.Examples.{answer}

-- The time is that of all sleeps.
abbrev slept_time : List Call → ℕ
slept_time [] = 1000
slept_time (sleep ms ∷ h) = slept_time h + ms
slept_time (_ ∷ h) = slept_time h

-- Consul has no leader before the first sleep.
abbrev first_leader : List Call → Result String
first_leader (sleep ms ∷ h) = ok "leader"
first_leader (_ ∷ h) = first_leader h
first_leader [] = ok ""

abbrev reply_sleeping : List Call → (c : Call) → Answer c
reply_sleeping h now = slept_time h
reply_sleeping h consul_leader = first_leader h
reply_sleeping h c = answer c

abbrev sleeping : Env
sleeping = record { reply = reply_sleeping }

slept_time_grows : (c : Call) (h : List Call) → slept_time h ≤ slept_time (c ∷ h)
slept_time_grows (sleep ms) h = omega arith
slept_time_grows _ h = omega arith

abbrev sleeping_clock : Clock sleeping
sleeping_clock = record {
  time = slept_time;
  shows = λ h. refl;
  grows = slept_time_grows;
  slept = λ ms h. omega arith;
}

wait_for_consul_leader-Waited_example :
    let ran = wait_for_consul_leader 242 sleeping [] in
    Waited sleeping sleeping_clock 61_000 ran.0 ran.1
wait_for_consul_leader-Waited_example =
    wait_for_consul_leader-Waited sleeping sleeping_clock 242 [] (omega arith)

-- Consul has no leader at the first command, and bootstraps at the second; the time is over after
-- 120 of them.
abbrev bootstrapping : List Call → Result String
bootstrapping (command_output name args ∷ h) = ok "{}"
bootstrapping (_ ∷ h) = bootstrapping h
bootstrapping [] = err (exit_error "exit status 1" "No cluster leader")

abbrev reply_electing : List Call → (c : Call) → Answer c
reply_electing h (command_output name args) = bootstrapping h
reply_electing h (time_over ms) = ltb 119 (runs h)
reply_electing h c = answer c

abbrev electing : Env
electing = record { reply = reply_electing }

create_acl_bootstrap_token-Bootstrapped_example :
    let ran = create_acl_bootstrap_token 121 electing [] in Bootstrapped electing ran.0 ran.1
create_acl_bootstrap_token-Bootstrapped_example =
    create_acl_bootstrap_token-Bootstrapped electing 120 (λ h k. ground (arith, k)) 121 []
      (omega arith) (omega arith)
