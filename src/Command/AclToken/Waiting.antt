-- ===== src/Command/AclToken/Waiting.antt =====
-- pkg/command/common.go: the loop of `CreateACLToken` ends at its deadline.
use service_discover.Common.{
  ℕ, suc, ◌+◌, ◌≤◌, String, Bool, true, List, [], ◌∷◌, ◌≡◌, ◌⊎◌, if◌then◌else◌,
}
use service_discover.Errors.{Error, Result, ok, err, wrapped}
use service_discover.Command.TokenCreation.{unmarshal_token}
use service_discover.Json.{Codec}
use service_discover.World.{Call, Env, set_env, unset_env, command_output, wait_or_deadline}
use service_discover.Prog.{
  Prog, Outcome, returns, fails, panics, ask, fail, result, either, ◌>>=◌, map_error, outcome_of,
  continue, handle, deferring,
}
use service_discover.Command.AclToken.{
  env_error, consul_http_token, create_loop, create_failed, consul_bin, token_command,
}

-- How often the program has waited.
abbrev pub waits : List Call → ℕ
waits [] = 0
waits (wait_or_deadline ms ∷ h) = suc (waits h)
waits (_ ∷ h) = waits h

-- The deadline has come once the program has waited that often.
abbrev pub HasDeadline : (rounds : ℕ) → Env → Type 0
HasDeadline rounds env =
    (h : List Call) (ms : ℕ) → rounds ≤ waits h → env.reply h (wait_or_deadline ms) ≡ true

module _ (codec : Codec) (policy : String) (env : Env) where
  abbrev pub create_token : Call
  create_token = command_output consul_bin (token_command policy)

  -- The last command for the token was answered.
  pub record Answers (response : String) (h : List Call) : Type 0 where
    pub before : List Call
    pub last : h ≡ create_token ∷ before
    pub answer : env.reply before create_token ≡ ok response

  -- The last command for the token failed, and the deadline came in the wait behind it.
  pub record TimesOut (e : Error) (h : List Call) : Type 0 where
    pub before : List Call
    pub last : h ≡ wait_or_deadline 1000 ∷ create_token ∷ before
    pub answer : env.reply before create_token ≡ err e
    pub over : env.reply (create_token ∷ before) (wait_or_deadline 1000) ≡ true

  -- What the result says of the history: a token is the secret id of the last answer, and an error
  -- says that the last answer is not decoded, or that the deadline came with a command that failed.
  abbrev pub Created : Outcome Error String → List Call → Type 0
  Created (returns token) h =
      (response : String) × Answers response h × (unmarshal_token codec response ≡ ok token)
  Created (fails e) h =
      ((response : String) × (x : Error) × Answers response h
        × (unmarshal_token codec response ≡ err x)
        × (e ≡ wrapped "unable to decode response from consul agent" x))
      ⊎ ((x : Error) × TimesOut x h × (e ≡ create_failed policy x))
  Created (panics s) h = ⊥

  abbrev decoding : Result String → Prog Error String
  decoding r = map_error (result r) (wrapped "unable to decode response from consul agent")

-- `rounds` is the number of waits of the time-out: 30 of a second each.
module _ (codec : Codec) (html_quote : String → String) (policy : String) (env : Env) (rounds : ℕ)
    (deadline : HasDeadline rounds env) where
  -- The loop with this fuel ends well from where it can still wait.
  abbrev Ending : (fuel : ℕ) → Type 0
  Ending fuel =
      (h : List Call)
      → suc rounds ≤ fuel + waits h
      → waits h ≤ rounds
      → Created codec policy env (create_loop codec html_quote fuel policy env h).0
          (create_loop codec html_quote fuel policy env h).1

  -- What follows a wait.
  abbrev waited : (fuel : ℕ) → Error → (over : Bool) → Prog Error String
  waited fuel e over =
      if over then fail (create_failed policy e) else create_loop codec html_quote fuel policy

  -- What follows a command for the token.
  abbrev answered : (fuel : ℕ) → Result String → Prog Error String
  answered fuel r =
      either r (λ response. decoding codec policy env (unmarshal_token codec response))
        (λ e. ask (wait_or_deadline 1000) >>= λ over. waited fuel e over)

module _ (codec : Codec) (html_quote : String → String) (env : Env) (rounds : ℕ)
    (deadline : HasDeadline rounds env) where
  -- The variable could not be set, and that is all that was done; or the loop ended as it shall, and
  -- then the variable was unset.
  abbrev pub IsEnded :
      (policy root_token : String)
      → (before : List Call) → Outcome Error String
      → List Call
      → Type 0
  IsEnded policy root_token before r h =
      ((e : Error) × (env.reply before (set_env consul_http_token root_token) ≡ err e)
        × (r ≡ fails (env_error e))
        × (h ≡ set_env consul_http_token root_token ∷ before))
      ⊎ ((g : List Call) × (h ≡ unset_env consul_http_token ∷ g) × Created codec policy env r g)

  -- What follows the setting of the variable.
  abbrev behind_set : (fuel : ℕ) → (policy : String) → Result (Unit {0}) → Prog Error String
  behind_set fuel policy r env h =
      continue (handle (λ e. fail (env_error e)) (outcome_of r) env h).0
        (λ _. deferring (create_loop codec html_quote fuel policy) (unset_env consul_http_token))
        env (handle (λ e. fail (env_error e)) (outcome_of r) env h).1
