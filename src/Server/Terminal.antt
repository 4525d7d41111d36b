-- ===== src/Server/Terminal.antt =====
-- The setup commands of the server and of the agent, in cmd/*/command/setup: what they do with the
-- terminal (pkg/term/term_unix.go).
use service_discover.Common.{
  ℕ, String, true, false, List, ◌∷◌, ◌≡◌, ◌⊎◌, inl, inr, refl, Bool-cases,
}
use service_discover.Errors.{Error, not_terminal, Result, ok, err}
use service_discover.Json.{Codec}
use service_discover.World.{Call, Env, is_terminal, make_raw, term_close}
use service_discover.Prog.{Prog, Outcome, fails, running}
use service_discover.Formatter.{OutputFormat}
use service_discover.Term.{with_terminal, new_terminal}
use service_discover.Carbonio.LocalConfig.{RawKey}
use service_discover.Carbonio.Ldap.{Base64}
use service_discover.Agent.Setup
use service_discover.Server.{Settings}
use service_discover.Server.Run.{run_server, run_server_wizard}

-- Standard input is no terminal, and nothing else was called; or it could not be set to raw input;
-- or it was, and it is restored at the end of the run.
abbrev pub Restores : Env → (h : List Call) → Outcome Error (Unit {0}) × List Call → Type 0
Restores env h (r, h') =
    ((env.reply h is_terminal ≡ false) × (r ≡ fails (not_terminal 0)) × (h' ≡ is_terminal ∷ h))
    ⊎ (((e : Error) × ((env.reply (is_terminal ∷ h) make_raw ≡ err e)
            × (r ≡ fails e)
            × (h' ≡ make_raw ∷ is_terminal ∷ h)))
        ⊎ ((env.reply (is_terminal ∷ h) make_raw ≡ ok tt)
            × ((ran : List Call) × (h' ≡ term_close ∷ ran))))

module _ (env : Env) (h : List Call) (m : Prog Error (Unit {0})) where
  raw :
      (r : Result (Unit {0}))
      → env.reply h is_terminal ≡ true
      → env.reply (is_terminal ∷ h) make_raw ≡ r
      → Restores env h (with_terminal m env h)
  unfolding new_terminal running
  raw (ok tt) t e = rw (t, e) (inr (inr (refl, (_, refl))))
  raw (err x) t e = rw (t, e) (inr (inl (x, (refl, refl, refl))))

  with_terminal-Restores : Restores env h (with_terminal m env h)
  unfolding new_terminal running
  with_terminal-Restores = elim (Bool-cases (env.reply h is_terminal)) [
    | inl t ↦ raw (env.reply (is_terminal ∷ h) make_raw) t refl
    | inr f ↦ rw f (inl (refl, refl, refl))
  ]

module _ (ranged : List (String × String) → List (String × String)) (codec : Codec)
    (html_quote : String → String) (fuel : ℕ) (base64 : Base64)
    (parse_xml : String → Result (List RawKey)) where
  -- `setup` and `setup wizard` of the server and of the agent: if standard input is no terminal, the
  -- command fails with the error that says so and calls nothing else; if it cannot be set to raw
  -- input, the command fails with that error; and otherwise the last thing that the command does is
  -- to restore the terminal, whether it returns, fails or panics.
  pub setups-Restores :
      (env : Env) (h : List Call) (server : Settings) (agent : Setup.Settings)
      (format : OutputFormat)
      → Restores env h
          (run_server ranged codec html_quote fuel base64 parse_xml server format env h)
        × Restores env h
            (run_server_wizard ranged codec html_quote fuel base64 parse_xml server format env h)
        × Restores env h (Setup.run codec html_quote fuel parse_xml base64 agent format env h)
        × Restores env h
            (Setup.run_wizard codec html_quote fuel parse_xml base64 agent format env h)
  unfolding run_server run_server_wizard Setup.run Setup.run_wizard
  setups-Restores env h server agent format = (
    with_terminal-Restores env h _,
    with_terminal-Restores env h _,
    with_terminal-Restores env h _,
    with_terminal-Restores env h _,
  )
