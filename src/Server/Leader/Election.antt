-- ===== src/Server/Leader/Election.antt =====
-- cmd/server/command/setup/firstsetup.go: `waitForConsulLeader` ends, and what its end means.
use service_discover.Common.{
  ℕ, zero, suc, ◌+◌, ◌*◌, ◌≤◌, ◌<◌, String, true, false, List, ◌∷◌, ◌≡◌, ◌≢◌, refl, arith, inl, inr,
  ltb, Bool-cases, is-cases,
}
use service_discover.Errors.{Error, Result, ok, err}
use service_discover.World.{Call, Env, consul_leader, now, sleep}
use service_discover.Prog.{Outcome, returns, fails, panics, running}
use service_discover.Server.Leader.{
  poll_leader, wait_for_consul_leader, is_elected, leader_timeout, poll_interval,
}

-- A clock that does not go back, and that a sleep moves on by its time at least.
pub record Clock (env : Env) : Type 0 where
  pub time : List Call → ℕ
  pub shows : (h : List Call) → env.reply h now ≡ time h
  pub grows : (c : Call) (h : List Call) → time h ≤ time (c ∷ h)
  pub slept : (ms : ℕ) (h : List Call) → time h + ms ≤ time (sleep ms ∷ h)

module _ (env : Env) (clock : Clock env) where
  open clock use {time, shows, grows, slept}

  -- The last call named a leader; or the time behind the deadline has come.
  abbrev pub Waited : (deadline : ℕ) → Outcome Error (Unit {0}) → List Call → Type 0
  Waited deadline (returns _) h =
      (before : List Call) × (leader : String) × ((h ≡ consul_leader ∷ before)
        × (env.reply before consul_leader ≡ ok leader)
        × (leader ≢ ""))
  Waited deadline (fails e) h = deadline < time h
  Waited deadline (panics s) h = ⊥

  elected :
      (deadline : ℕ) (h : List Call) (r : Result String)
      → env.reply h consul_leader ≡ r
      → is_elected r ≡ true
      → Waited deadline (returns tt) (consul_leader ∷ h)
  elected deadline h (ok leader) e t = (
    h,
    leader,
    (refl, e, λ empty. elim (is-cases leader "") [ inl (_, b) ↦ cc | inr (n, _) ↦ n empty ]),
  )
  elected deadline h (err x) e t = cc

  -- The rounds behind one that found no leader, with the clock at `now`.
  abbrev Reaches : (fuel deadline : ℕ) → Type 0
  Reaches fuel deadline =
      (h : List Call)
      → deadline < time h + poll_interval * fuel
      → let ran = poll_leader (suc fuel) deadline env h in Waited deadline ran.0 ran.1

  abbrev at_now : List Call → List Call
  at_now h = now ∷ consul_leader ∷ h

  at_now-le : (h : List Call) → time h ≤ time (at_now h)
  at_now-le h = omega (arith, grows consul_leader h, grows now (consul_leader ∷ h))

  -- The clock showed at most what it is behind that call.
  shown-le : (h : List Call) → env.reply (consul_leader ∷ h) now ≤ time (at_now h)
  shown-le h = omega (arith, shows (consul_leader ∷ h), grows now (consul_leader ∷ h))

  abbrev Again : (fuel deadline : ℕ) → List Call → Type 0
  Again fuel deadline h =
      let ran = poll_leader fuel deadline env (sleep poll_interval ∷ at_now h) in
      Waited deadline ran.0 ran.1

  -- One round, with the rounds behind it.
  round :
      (fuel deadline : ℕ) (h : List Call)
      → (ltb deadline (env.reply (consul_leader ∷ h) now) ≡ false → Again fuel deadline h)
      → let ran = poll_leader (suc fuel) deadline env h in Waited deadline ran.0 ran.1
  unfolding poll_leader running
  round fuel deadline h again = elim (Bool-cases (is_elected (env.reply h consul_leader))) [
    | inl found ↦ rw found (elected deadline h _ refl found)
    | inr none_found ↦
        rw none_found (elim (Bool-cases (ltb deadline (env.reply (consul_leader ∷ h) now))) [
          | inl over ↦ rw over (ground (arith, over, shown-le h))
          | inr more ↦ rw more (again more)
        ])
  ]

  poll_leader-Waited : (fuel deadline : ℕ) → Reaches fuel deadline
  poll_leader-Waited zero deadline h k =
      round zero deadline h
        λ more. absurd (ground (arith, more, k, shows (consul_leader ∷ h), grows consul_leader h))
  poll_leader-Waited (suc fuel) deadline h k = round (suc fuel) deadline h λ more.
      poll_leader-Waited fuel deadline (sleep poll_interval ∷ at_now h)
        (omega (arith, k, at_now-le h, slept poll_interval (at_now h)))

  -- `waitForConsulLeader` ends on every clock that does not go back and that each sleep moves on,
  -- with fuel for 242 polls. It returns only if the last call it made named a leader, and the name
  -- is not empty. It fails only once the clock is past the time-out of a minute, counted from its
  -- start; and it does not panic.
  pub wait_for_consul_leader-Waited :
      (fuel : ℕ) (h : List Call)
      → 242 ≤ fuel
      → let ran = wait_for_consul_leader fuel env h in
        Waited (env.reply h now + leader_timeout) ran.0 ran.1
  unfolding wait_for_consul_leader running
  wait_for_consul_leader-Waited zero h k = absurd (omega arith)
  wait_for_consul_leader-Waited (suc fuel) h k =
      poll_leader-Waited fuel (env.reply h now + leader_timeout) (now ∷ h)
        (omega (arith, k, shows h, grows now h))
