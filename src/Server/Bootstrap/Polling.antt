-- ===== src/Server/Bootstrap/Polling.antt =====
-- cmd/server/command/setup/firstsetup.go: `createACLBootstrapToken` ends, and what its end means.
use service_discover.Common.{
  ℕ, zero, suc, ◌+◌, ◌≤◌, String, true, false, Option, none, some, List, [], ◌∷◌, ◌≡◌, ◌⊎◌, refl,
  arith, inl, inr, Bool-cases,
}
use service_discover.Text.{trim_space, contains_text}
use service_discover.Errors.{Error, as_exit_error, Result, ok, err}
use service_discover.Exec.{error_from_stderr}
use service_discover.World.{Call, Env, command_output, time_over}
use service_discover.Prog.{Outcome, returns, fails, panics, result, running}
use service_discover.Command.AclToken.{consul_bin}
use service_discover.Server.Bootstrap.{
  create_acl_bootstrap_token, sent, receive, bootstrap_timeout, bootstrap_command,
  no_cluster_leader,
}

-- The command of the goroutine, and the time-out of the `select`.
abbrev bootstrap : Call
bootstrap = command_output consul_bin bootstrap_command

abbrev over_call : Call
over_call = time_over 30_000

-- How often a command has run.
abbrev pub runs : List Call → ℕ
runs [] = 0
runs (command_output name args ∷ h) = suc (runs h)
runs (_ ∷ h) = runs h

-- The time is over once that many commands have run.
abbrev pub HasTimeout : (rounds : ℕ) → Env → Type 0
HasTimeout rounds env = (h : List Call) → rounds ≤ runs h → env.reply h over_call ≡ true

-- Consul refused for another reason than that it has no leader yet.
abbrev pub Refused : Env → (before : List Call) → Error → Type 0
Refused env before e =
    (failed : Error) × (stderr : String) × ((env.reply before bootstrap ≡ err failed)
      × (as_exit_error failed ≡ some stderr)
      × (contains_text (trim_space stderr) no_cluster_leader ≡ false)
      × (e ≡ error_from_stderr failed "unable to create ACL bootstrap token"))

module _ (env : Env) where
  abbrev pub Bootstrapped : Outcome Error String → List Call → Type 0
  Bootstrapped (returns text) h =
      (before : List Call) × ((h ≡ over_call ∷ bootstrap ∷ before)
        × (env.reply before bootstrap ≡ ok text))
  Bootstrapped (fails e) h =
      (e ≡ bootstrap_timeout)
      ⊎ ((before : List Call) × ((h ≡ over_call ∷ bootstrap ∷ before) × Refused env before e))
  Bootstrapped (panics s) h = ⊥

  -- What the goroutine sends is the command's.
  abbrev Sends : (before : List Call) → Result String → Type 0
  Sends before (ok text) = env.reply before bootstrap ≡ ok text
  Sends before (err e) = Refused env before e

  finished :
      (before : List Call) (r : Result String)
      → Sends before r
      → let ran = result r env (over_call ∷ bootstrap ∷ before) in Bootstrapped ran.0 ran.1
  unfolding running
  finished before (ok text) k = (before, (refl, k))
  finished before (err e) k = inr (before, (refl, k))

  received :
      (before : List Call) (r : Result String)
      → Sends before r
      → let ran = receive r env (bootstrap ∷ before) in Bootstrapped ran.0 ran.1
  unfolding running
  received before r k = elim (Bool-cases (env.reply (bootstrap ∷ before) over_call)) [
    | inl over ↦ rw over (inl refl)
    | inr more ↦ rw more (finished before r k)
  ]

  -- The choice of the goroutine: to poll again, or to send what the command gave.
  Polled : (before : List Call) → Result String → Type 0
  Polled before answer =
      (sent answer ≡ none) ⊎ ((r : Result String) × ((sent answer ≡ some r) × Sends before r))

  stderr-Polled :
      (before : List Call) (failed : Error) (o : Option String)
      → env.reply before bootstrap ≡ err failed
      → as_exit_error failed ≡ o
      → Polled before (err failed)
  unfolding Polled sent
  stderr-Polled before failed none k e = inl (rw (e, sent) refl)
  stderr-Polled before failed (some stderr) k e =
      elim (Bool-cases (contains_text (trim_space stderr) no_cluster_leader)) [
        | inl waits ↦ inl (rw (e, sent, waits) refl)
        | inr refuses ↦ inr (
          err (error_from_stderr failed "unable to create ACL bootstrap token"),
          (rw (e, sent, refuses) refl, (failed, stderr, (k, e, refuses, refl))),
        )
      ]

  sent-Polled :
      (before : List Call) (answer : Result String)
      → env.reply before bootstrap ≡ answer
      → Polled before answer
  unfolding Polled sent
  sent-Polled before (ok text) k = inr (ok text, (refl, k))
  sent-Polled before (err e) k = stderr-Polled before e (as_exit_error e) k refl

  module _ (rounds : ℕ) (timeout : HasTimeout rounds env) where
    -- `createACLBootstrapToken` ends in every world where the time is over after some number of
    -- commands: one tick more than there are commands left is enough fuel. What it returns is what
    -- the last command printed. It fails with the time-out, or with the refusal of the last command;
    -- that is an exit with an error whose text does not say that Consul has no leader. So no other
    -- failure of a command is ever reported. It does not panic.
    pub create_acl_bootstrap_token-Bootstrapped :
        (fuel : ℕ) (h : List Call)
        → suc rounds ≤ fuel + runs h
        → runs h ≤ rounds
        → let ran = create_acl_bootstrap_token fuel env h in Bootstrapped ran.0 ran.1
    unfolding create_acl_bootstrap_token running Polled
    create_acl_bootstrap_token-Bootstrapped zero h k w = absurd (omega (arith, k, w))
    create_acl_bootstrap_token-Bootstrapped (suc fuel) h k w =
        elim (Bool-cases (env.reply h over_call)) [
          | inl over ↦ rw over (inl refl)
          | inr more ↦ rw more (elim (sent-Polled (over_call ∷ h) _ refl) [
            | inl again ↦ rw again (
                create_acl_bootstrap_token-Bootstrapped fuel (bootstrap ∷ over_call ∷ h)
                  (omega (arith, k)) (ground (arith, w, more, timeout h)))
            | inr (r, (e, s)) ↦ rw e (received (over_call ∷ h) r s)
          ])
        ]
