-- ===== src/Cli/Local.antt =====
-- cmd/agent/agent.go and cmd/server/server.go: the commands that set nothing up, and what each of them
-- may call.
use service_discover.Common.{String, Bool, List, ◌⊎◌, inl, inr, [], ◌∷◌, ◌≡◌, ◌is◌, refl}
use service_discover.Errors.{Error, message, ok, err, Result-cases, as_not_terminal}
use service_discover.Text.{trim}
use service_discover.Json.{Codec}
use service_discover.Formatter.{OutputFormat}
use service_discover.World.{
  Call, lookup_env, read_file, write_file, open_file, close_file, term_write, term_close, Env,
  is_terminal, make_raw, read_line, read_password, armor_decode, read_message, command_output, exec,
}
use service_discover.Prog.{Prog, fails, running}
use service_discover.Prog.Emits.{
  Emits, Emits-ask, Emits-pure, Emits-fail, Emits-panic, Emits-lift, Emits-if, Emits-bind,
  Emits-on_error, Emits-either, Emits-maybe, Emits-deferring, check-Emits, try-Emits, mapped-Emits,
}
use service_discover.Prog.Ends.{
  Ends, Any, Ends-ask, Ends-bind, Ends-check, Ends-on_error, Ends-fail, Ends-pure, Emits-Ends,
}
use service_discover.Term.{new_terminal, must_read}
use service_discover.Command.New.{Command}
use service_discover.Command.Version.{run_version, run_help}
use service_discover.Command.Config.{
  read_config, get_config, set_config, list_config, mutable_config_file, bind_address_name,
}
use service_discover.Command.Credentials.{open_cluster_credential}
use service_discover.Command.BootstrapToken.{
  run_bootstrap_token, read_bootstrap_token, token_of_archive, ask_password, preset_token,
}
use service_discover.Command.ServiceToken.{Uuid}
use service_discover.Encrypter.Reader.{new_reader, pass_generator}
use service_discover.Cli.{
  Choice, choose_setup, choose_wizard, choose_get, choose_set, choose_list, choose_bootstrap_token,
  choose_ensure, choose_prune_legacy, choose_version, choose_help, Cli, run_command,
}

-- The choices that are no setup and touch no token of Consul.
abbrev pub IsLocal : Choice → Type 0
IsLocal choose_setup = ⊥
IsLocal choose_wizard = ⊥
IsLocal choose_ensure = ⊥
IsLocal choose_prune_legacy = ⊥
IsLocal _ = Unit

-- Nothing but an output.
abbrev pub IsOutput : Call → Type 0
IsOutput (term_write _) = Unit
IsOutput _ = ⊥

-- The configuration of the node is read.
abbrev pub IsGet : Call → Type 0
IsGet (read_file path) = path ≡ mutable_config_file
IsGet (term_write _) = Unit
IsGet _ = ⊥

-- It is read and written.
abbrev pub IsPut : Call → Type 0
IsPut (read_file path) = path ≡ mutable_config_file
IsPut (write_file path _ mode) = (path ≡ mutable_config_file) × (mode ≡ 0o644)
IsPut _ = ⊥

-- The credential is opened and read, and the terminal asks for its password.
abbrev pub IsUnlock : (location : String) → Call → Type 0
IsUnlock location (lookup_env name) = name ≡ "SETUP_CONSUL_TOKEN"
IsUnlock location (open_file path) = path ≡ location
IsUnlock location (close_file path) = path ≡ location
IsUnlock location (armor_decode reader) = reader ≡ location
IsUnlock location (read_message _ _) = Unit
IsUnlock location is_terminal = Unit
IsUnlock location make_raw = Unit
IsUnlock location term_close = Unit
IsUnlock location (term_write _) = Unit
IsUnlock location read_line = Unit
IsUnlock location (read_password _) = Unit
IsUnlock location _ = ⊥

-- The call that looks for `man`.
abbrev pub which_man : Call
which_man = command_output "which" ("man" ∷ [])

-- `man` is looked for. If that fails, so does the program, with no other call. Otherwise its second
-- and last call is to become what was found, with the page of that name.
abbrev pub IsManual : (page : String) → Prog Error (Unit {0}) → Type 0
IsManual page m =
    (env : Env) (h : List Call)
    → ((e : Error) × (e' : Error) × (env.reply h which_man ≡ err e)
        × (m env h ≡ (fails e', which_man ∷ h)))
      ⊎ ((out : String) × ((env.reply h which_man ≡ ok out)
            × ((m env h).1 ≡ exec (trim out b'\n') ("" ∷ page ∷ []) [] ∷ which_man ∷ h)))

-- What a choice may do; `location` is the path of the credential, `page` the page of the manual.
abbrev pub Allows : (location page : String) → Choice → Prog Error (Unit {0}) → Type 0
Allows location page choose_get m = Emits IsGet m
Allows location page choose_set m = Emits IsPut m
Allows location page choose_list m = Emits IsOutput m
Allows location page choose_bootstrap_token m = Emits (IsUnlock location) m
Allows location page choose_version m = Emits IsOutput m
Allows location page choose_help m = IsManual page m
Allows location page _ m = ⊥

abbrev no_manual : Error
no_manual =
    message
      "unable to detect man package in this system. Please install it in order to see detailed manual instructions"

run_help-IsManual : (c : Command) → IsManual c.application_name (run_help c)
unfolding run_help running
run_help-IsManual c env h = elim (Result-cases (env.reply h which_man)) [
  | inl (out, e) ↦ inr (out, (e, rw e refl))
  | inr (x, e) ↦ inl (x, no_manual, e, rw e refl)
]

ask_password-Emits : (location prompt : String) → Emits (IsUnlock location) (ask_password prompt)
unfolding ask_password must_read
ask_password-Emits location prompt =
    Emits-on_error _ _ (check-Emits _ (Emits-ask (read_password prompt) tt)) λ e.
      Emits-maybe (as_not_terminal e) _ _ (Emits-fail e) λ _.
        Emits-bind _ _ (Emits-ask read_line tt)
          λ out. Emits-either out _ _ Emits-pure (λ x. Emits-panic _)

open_cluster_credential-Emits :
    (location : String) → Emits (IsUnlock location) (open_cluster_credential location)
unfolding open_cluster_credential
open_cluster_credential-Emits location =
    Emits-bind _ _ (try-Emits _ (Emits-ask (open_file location) refl) _) λ _. Emits-pure location

-- The file is that of the path.
open_cluster_credential-Ends :
    (location : String) → Ends (λ file. file ≡ location) Any (open_cluster_credential location)
unfolding open_cluster_credential
open_cluster_credential-Ends location =
    Ends-bind _ _
      (Ends-on_error _ _ (Ends-check _ (Ends-ask (open_file location)) (λ e. tt))
        (λ e _. Ends-fail _ tt))
      λ _ k. Ends-pure location refl

module _ (codec : Codec) where
  read_config-Emits :
      {P : Call → Type 0} → P (read_file mutable_config_file) → Emits P (read_config codec)
  unfolding read_config
  read_config-Emits p =
      Emits-bind _ _ (try-Emits _ (Emits-ask (read_file mutable_config_file) p) _)
        λ content. Emits-lift _

  get_config-Emits :
      (config : String) (format : OutputFormat) → Emits IsGet (get_config codec config format)
  unfolding get_config
  get_config-Emits config format = Emits-bind _ _ (read_config-Emits refl) λ address.
      Emits-if (config is bind_address_name) _ _
        (Emits-bind _ _ (Emits-lift _) λ out. check-Emits _ (Emits-ask (term_write out) tt))
        (Emits-fail _)

  set_config-Emits : (config value : String) → Emits IsPut (set_config codec config value)
  unfolding set_config
  set_config-Emits config value = Emits-bind _ _ (read_config-Emits refl) λ _.
      Emits-if (config is bind_address_name) _ _
        (Emits-bind _ _ (Emits-lift _) λ content.
          try-Emits _ (Emits-ask (write_file mutable_config_file content 0o644) (refl, refl)) _)
        (Emits-fail _)

  list_config-Emits : (format : OutputFormat) → Emits IsOutput (list_config codec format)
  unfolding list_config
  list_config-Emits format =
      Emits-bind _ _ (Emits-lift _) λ out. check-Emits _ (Emits-ask (term_write out) tt)

  run_version-Emits :
      (c : Command) (name : String) (format : OutputFormat)
      → Emits IsOutput (run_version codec c name format)
  unfolding run_version
  run_version-Emits c name format =
      Emits-bind _ _ (Emits-lift _) λ out. check-Emits _ (Emits-ask (term_write out) tt)

  token_of_archive-Emits :
      (location password : String)
      → Emits (IsUnlock location) (token_of_archive codec location password)
  unfolding token_of_archive new_reader
  token_of_archive-Emits location password =
      Emits-Ends Any _ _ (mapped-Emits _ (open_cluster_credential-Emits location) _)
        (Ends-on_error _ _ (open_cluster_credential-Ends location) (λ e _. Ends-fail _ tt))
        λ file is_location. Emits-deferring _ (close_file file) is_location (
          Emits-bind _ _
            (Emits-bind _ _ (check-Emits _ (Emits-ask (armor_decode file) is_location))
              λ body. check-Emits _ (Emits-ask (read_message body (pass_generator password)) tt))
            λ items. Emits-bind _ _ (Emits-lift _) λ files. mapped-Emits _ (Emits-lift _) _)

  run_bootstrap_token-Emits :
      (setup : Bool) (password location : String) (format : OutputFormat)
      → Emits (IsUnlock location) (run_bootstrap_token codec setup password location format)
  unfolding run_bootstrap_token read_bootstrap_token new_terminal
  run_bootstrap_token-Emits setup password location format =
      Emits-bind _ _ (Emits-ask (lookup_env "SETUP_CONSUL_TOKEN") refl) λ preset.
        Emits-bind _ _
          (Emits-maybe (preset_token codec setup preset) _ _
            (Emits-if (password is "") _ _
              (Emits-bind _ _
                (Emits-bind _ _ (Emits-ask is_terminal tt) λ terminal.
                  Emits-if terminal _ _ (check-Emits _ (Emits-ask make_raw tt)) (Emits-fail _))
                λ _. Emits-deferring _ term_close tt (
                  Emits-bind _ _ (ask_password-Emits location _)
                    λ typed. token_of_archive-Emits location typed))
              (token_of_archive-Emits location password))
            Emits-pure)
          λ token.
            Emits-bind _ _ (Emits-lift _) λ out. check-Emits _ (Emits-ask (term_write out) tt)

module _ {Setup Wizard : Type 0} (run_setup : Setup → OutputFormat → Prog Error (Unit {0}))
    (run_wizard : Wizard → OutputFormat → Prog Error (Unit {0})) (codec : Codec) (uuid : Uuid) where
  -- In both programs the commands that set nothing up touch nothing but their own: `config list` and
  -- `version` only write their output, `config get` reads the configuration of the node, `config
  -- set` reads that file and writes no other, `bootstrap-token` reads the credential at its path and
  -- its terminal, and changes no file, and `help` looks for `man`, fails with no other call if that
  -- fails, and otherwise becomes what was found, with its own page, and does nothing else.
  pub run_command-Allows :
      (cli : Cli Setup Wizard) (choice : Choice)
      → IsLocal choice
      → Allows cli.bootstrap_token.cluster_credential_file_location
          cli.help.command.application_name choice
          (run_command run_setup run_wizard codec uuid cli choice)
  unfolding run_command
  run_command-Allows cli choose_setup k = absurd k
  run_command-Allows cli choose_wizard k = absurd k
  run_command-Allows cli choose_get k = get_config-Emits codec cli.config.get.config cli.format
  run_command-Allows cli choose_set k =
      set_config-Emits codec cli.config.set.config cli.config.set.value
  run_command-Allows cli choose_list k = list_config-Emits codec cli.format
  run_command-Allows cli choose_bootstrap_token k =
      let b = cli.bootstrap_token in
      run_bootstrap_token-Emits codec b.setup b.password b.cluster_credential_file_location
        cli.format
  run_command-Allows cli choose_ensure k = absurd k
  run_command-Allows cli choose_prune_legacy k = absurd k
  run_command-Allows cli choose_version k =
      run_version-Emits codec cli.version.command cli.version.agent_name cli.format
  run_command-Allows cli choose_help k = run_help-IsManual cli.help.command
