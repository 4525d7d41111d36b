-- ===== src/Command/BootstrapToken.antt =====
-- pkg/command/bootstrap_token.go: the command that prints the bootstrap token of the cluster.
pub mod Wrapper
use service_discover.Common.{
  String, ◌<>◌, Bool, true, Option, none, some, [], ◌∷◌, ◌is◌, if◌then◌else◌,
}
use service_discover.Common.Dict.{lookup}
use service_discover.Errors.{Error, message, wrapped, error_text, as_not_terminal, ok}
use service_discover.Command.TokenCreation.{unmarshal_token}
use service_discover.Json.{Codec, str, obj, object}
use service_discover.Formatter.{Formatter, OutputFormat, render}
use service_discover.World.{lookup_env, read_password, term_write, close_file}
use service_discover.Prog.{
  Prog, ask, check, pure, fail, lift, map_error, on_error, deferring, result, maybe, ◌>>=◌,
}
use service_discover.Term.{must_read_line, with_terminal}
use service_discover.Encrypter.Reader.{new_reader, read_files}
use service_discover.Command.Credentials.{open_cluster_credential}

abbrev pub consul_acl_bootstrap : String
consul_acl_bootstrap = "consul-acl-secret.json"

-- The password that the terminal asks for; without a terminal, a line of the input.
unfoldable pub ask_password : (prompt : String) → Prog Error String
ask_password prompt =
    on_error (check (ask (read_password prompt)))
      (λ e. maybe (as_not_terminal e) (fail e) (λ _. must_read_line))

module _ (codec : Codec) where
  -- `ReadToken` from the opening of the credential file on.
  unfoldable pub token_of_archive : (location password : String) → Prog Error String
  token_of_archive location password = do
    file ←
        map_error (open_cluster_credential location)
          (λ e. message ("unable to open " <> (location <> (": " <> error_text e))))
    deferring
        (do
          items ← new_reader file password
          files ← lift (read_files items (consul_acl_bootstrap ∷ []))
          map_error
              (result (
                unmarshal_token codec (elim (lookup consul_acl_bootstrap files) [
                  | none ↦ ""
                  | some content ↦ content
                ])))
              (wrapped "unable to decode ACL Bootstrap token"))
        (close_file file)

  -- `ReadToken`: the terminal stays open to the end.
  unfoldable pub read_bootstrap_token :
      (setup : Bool) → (password location : String) → Prog Error String
  unfolding token_of_archive ask_password
  read_bootstrap_token setup password location =
      if password is ""
      then with_terminal (do
        typed ← ask_password (if setup then "" else "Insert the cluster credential password: ")
        token_of_archive location typed)
      else token_of_archive location password

  -- The renderings of `outputBootstrapToken`.
  abbrev pub token_output : (token : String) → Formatter
  token_output token = record {
    plain_render = ok token;
    json_render = codec.print (obj (object (("token", str token) ∷ [])));
  }

  -- The value that `Run` takes from the environment, if it may.
  abbrev pub preset_token : (setup : Bool) → Option String → Option String
  preset_token true (some token) = if token is "" then none else some token
  preset_token _ _ = none

  -- `BootstrapToken.Run`
  unfoldable pub run_bootstrap_token :
      (setup : Bool) → (password location : String) → OutputFormat → Prog Error (Unit {0})
  unfolding read_bootstrap_token
  run_bootstrap_token setup password location format = do
    preset ← ask (lookup_env "SETUP_CONSUL_TOKEN")
    token ← maybe (preset_token setup preset) (read_bootstrap_token setup password location) pure
    out ← result (render (token_output token) format)
    check (ask (term_write out))
