-- ===== src/Agent/Ordering.antt =====
-- cmd/agent/command/setup/setup.go: what is called before the credential is open, from its opening
-- on.
use service_discover.Common.{ℕ, String, ◌<>◌, List, [], ◌∷◌, ◌≡◌}
use service_discover.Errors.{ok}
use service_discover.Json.{Codec}
use service_discover.FilePath.{join_path, rel_root}
use service_discover.World.{Call, Env, Item, create_temp, create_file, write_file, remove}
use service_discover.Prog.{returns, ◌>>◌}
use service_discover.Prog.Emits.{Emits, Emits-ask, Emits-bind, Emits-deferring, check-Emits}
use service_discover.Prog.Triple.{
  Triple, Triple-bind, Triple-on_error, Triple-fail, Triple-lift, Triple-known, Triple-before,
}
use service_discover.Prog.Order.{IsAny, IsAny-Emits, Post-Ordered}
use service_discover.Encrypter.Reader.{read_files}
use service_discover.Steps.Unlocking.{
  IsOpening, Opens, Unlocked, Open, Decrypted-Unlocked, Decrypted-Open, new_reader-Triple, opened,
}
use service_discover.Steps.{set_strict_permissions-Emits, check_hostname_address-Emits}
use service_discover.Agent.KeyFile.{with_key_file-Emits, configure_agent-Emits}
use service_discover.Agent.Setup.{
  Settings, install, ca_name, ca_key_name, extracted, with_key_file, configure_agent,
}
use service_discover.Command.Network.{check_hostname_address}

-- The items of the credential hold the four files that the setup asks for.
pub record HasFiles (s : Settings) (items : List Item) : Type 0 where
  pub ca_path : String
  pub ca_key_path : String
  pub files : List (String × String)
  pub ca : rel_root (join_path s.consul_home ca_name) ≡ ok ca_path
  pub ca_key : rel_root (join_path s.consul_home ca_key_name) ≡ ok ca_key_path
  pub read :
      read_files items (ca_path ∷ ca_key_path ∷ "gossip-key" ∷ "consul-acl-secret.json" ∷ [])
      ≡ returns files

module _ (env : Env) (s : Settings) where
  -- What runs with the key in its temporary file.
  behind_key :
      (codec : Codec) (html_quote : String → String) (fuel : ℕ) (hostname key_file : String)
      (files : List (String × String)) (ca_key_path : String)
      → Emits IsAny (
          with_key_file s (s.consul_home <> ("/" <> ca_name)) key_file (extracted files ca_key_path)
          >> (check_hostname_address hostname
              >> configure_agent codec html_quote fuel s hostname files))
  behind_key codec html_quote fuel hostname key_file files ca_key_path =
      Emits-bind _ _ (IsAny-Emits _ (with_key_file-Emits s _ key_file _)) λ _.
        Emits-bind _ _ (IsAny-Emits _ (check_hostname_address-Emits hostname))
          λ _. IsAny-Emits _ (configure_agent-Emits codec html_quote fuel s hostname files)

  module _ (codec : Codec) (html_quote : String → String) (fuel : ℕ)
      (hostname credential : String) where
    install-Triple :
        Triple env
          (Unlocked env (HasFiles s))
          (install codec html_quote fuel s hostname credential)
          (λ _. Open env (HasFiles s))
          (Unlocked env (HasFiles s))
    unfolding install
    install-Triple =
        Triple-bind _ _
          (Triple-on_error _ _ (new_reader-Triple env (HasFiles s) credential s.password) (λ h o. o)
            (λ e. Triple-fail _ _))
          λ items.
            Triple-bind _ _ (Triple-known (Decrypted-Unlocked env (HasFiles s) items) _) λ ca_path.
              Triple-bind _ _
                (Triple-known (λ h p. Decrypted-Unlocked env (HasFiles s) items h p.1) _)
                λ ca_key_path.
                  Triple-bind _ _
                    (Triple-lift (λ h p. Decrypted-Unlocked env (HasFiles s) items h p.1.1) _)
                    λ files.
                      Triple-before _
                        (λ h p.
                          Decrypted-Open env (HasFiles s) items h
                            (record {
                              ca_path = ca_path;
                              ca_key_path = ca_key_path;
                              files = files;
                              ca = p.1.1.0;
                              ca_key = p.1.0;
                              read = p.0;
                            })
                            p.1.1.1)
                        (opened env (HasFiles s) _ (
                          Emits-bind _ _ (check-Emits _ (Emits-ask (create_file _) tt)) λ _.
                            Emits-bind _ _ (check-Emits _ (Emits-ask (write_file _ _ 0o600) tt))
                              λ _.
                                Emits-bind _ _ (IsAny-Emits _ (set_strict_permissions-Emits _)) λ _.
                                  Emits-bind _ _
                                    (check-Emits _
                                      (Emits-ask (create_temp "" "service-discover*") tt))
                                    λ key_file. Emits-deferring _ (remove key_file) tt (
                                      behind_key codec html_quote fuel hostname key_file files
                                        ca_key_path)))

    -- From the opening of the credential on, the setup of an agent calls nothing but what the
    -- opening needs before it has decrypted the credential and found the four files in it. On every
    -- path and in every environment, each other call of the run comes behind a message that was
    -- decrypted and has them, if that held of the calls before the run. What `setup` does before
    -- it opens the credential, the download of it included, is not part of this.
    pub install-Unlocked :
        (h : List Call)
        → Unlocked env (HasFiles s) h
        → Unlocked env (HasFiles s) (install codec html_quote fuel s hostname credential env h).1
    install-Unlocked h o =
        let ran = install codec html_quote fuel s hostname credential env h in
        Post-Ordered IsOpening (Opens env (HasFiles s)) ran.0 ran.1 (install-Triple.at h o)
