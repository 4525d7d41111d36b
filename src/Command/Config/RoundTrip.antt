-- ===== src/Command/Config/RoundTrip.antt =====
-- pkg/command/config.go: what `set` wrote is what `get` prints.
use service_discover.Common.{
  String, ◌<>◌, false, List, ◌∷◌, ◌≡◌, ◌≢◌, refl, ◌is◌, is-cases, inl, inr,
}
use service_discover.Errors.{ok}
use service_discover.Json.{Codec, unmarshal_string, decode_string, string_field}
use service_discover.Formatter.{plain, render}
use service_discover.Text.{equal_fold}
use service_discover.World.{Call, Env, read_file, write_file, term_write}
use service_discover.Prog.{returns, ◌>>◌, running}
use service_discover.Command.Credentials.{mutable_config}
use service_discover.Command.Config.{
  mutable_config_file, bind_address_name, set_config, get_config, read_config,
}

is_false : (s t : String) → s ≢ t → s is t ≡ false
is_false s t n = elim (is-cases s t) [ inl (e, _) ↦ absurd (n e) | inr (_, b) ↦ b ]

abbrev pub read_call : Call
read_call = read_file mutable_config_file

abbrev pub write_call : (text : String) → Call
write_call text = write_file mutable_config_file text 0o644

module _ (codec : Codec) (env : Env) (h : List Call) (old before text value : String) where
  -- `set` of the bind address and then `get` in plain format print the address that was set. The file
  -- holds a configuration before, which parses as one with a bind address, and can be read and
  -- written, a read behind the write gives what was written, what the JSON library prints for the new configuration it also parses, the address is
  -- not empty, and the output can be written.
  pub get-set_config :
      env.reply h read_call ≡ ok old
      → unmarshal_string codec "bind_addr" old ≡ ok before
      → codec.print_indent (mutable_config value) ≡ ok text
      → codec.parse text ≡ ok (mutable_config value)
      → env.reply (read_call ∷ h) (write_call text) ≡ ok tt
      → env.reply (write_call text ∷ read_call ∷ h) read_call ≡ ok text
      → value ≢ ""
      → env.reply (read_call ∷ write_call text ∷ read_call ∷ h) (term_write (value <> "\n")) ≡ ok tt
      → (set_config codec bind_address_name value >> get_config codec bind_address_name plain) env h
        ≡ (returns tt, term_write (value <> "\n") ∷ read_call ∷ write_call text ∷ read_call ∷ h)
  unfolding set_config get_config read_config running render decode_string string_field equal_fold
  get-set_config e₁ e₂ e₃ e₄ e₅ e₆ n e₇ = rw (e₁, e₂, e₃, e₅, e₆, e₄, is_false value "" n, e₇) refl
