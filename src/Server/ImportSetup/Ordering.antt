-- ===== src/Server/ImportSetup/Ordering.antt =====
-- cmd/server/command/setup/importsetup.go: what is called before the credential is open, from its
-- opening on.
use service_discover.Common.{ℕ, String, List, [], ◌∷◌, ◌≡◌}
use service_discover.Errors.{ok}
use service_discover.Json.{Codec}
use service_discover.World.{Call, Env, Item, open_file, write_file, remove}
use service_discover.Prog.{returns}
use service_discover.Prog.Emits.{
  Emits, Emits-ask, Emits-bind, Emits-pure, Emits-lift, Emits-deferring, check-Emits, try-Emits,
  mapped-Emits,
}
use service_discover.Prog.Triple.{
  Triple, Triple-bind, Triple-on_error, Triple-fail, Triple-lift, Triple-known, Triple-before,
}
use service_discover.Prog.Order.{IsAny, IsAny-Emits, Post-Ordered}
use service_discover.Carbonio.Ldap.{Base64, LdapCredentials, ldap_context}
use service_discover.Encrypter.Reader.{read_files}
use service_discover.Command.AclToken.{server}
use service_discover.Command.BootstrapToken.{consul_acl_bootstrap}
use service_discover.Command.Credentials.{open_cluster_credential}
use service_discover.Steps.Unlocking.{
  IsOpening, Opens, Unlocked, Open, Decrypted-Unlocked, Decrypted-Open, new_reader-Triple, opening,
  opened,
}
use service_discover.Steps.{
  set_strict_permissions-Emits, check_docker_container-Emits, create_acl_token-Emits,
  set_acl_token-Emits,
}
use service_discover.Agent.Setup.{ca_name, ca_key_name}
use service_discover.Server.{Settings}
use service_discover.Server.FirstSetup.Steps.{
  generate_certificate_and_config-Emits, save_configuration-Emits, add_service_in_ldap-Emits,
  start_server-Emits, enable_server-Emits,
}
use service_discover.Server.ImportSetup.{
  default_home, archived, configure_server, import_credential,
}

-- The items of the credential hold the four files that the import asks for.
pub record HasFiles (items : List Item) : Type 0 where
  pub ca : String
  pub ca_key : String
  pub files : List (String × String)
  pub ca_found : archived default_home ca_name ≡ ok ca
  pub ca_key_found : archived default_home ca_key_name ≡ ok ca_key
  pub read :
      read_files items (ca ∷ ca_key ∷ consul_acl_bootstrap ∷ "gossip-key" ∷ []) ≡ returns files

open_cluster_credential-Emits : (path : String) → Emits IsOpening (open_cluster_credential path)
unfolding open_cluster_credential
open_cluster_credential-Emits path =
    Emits-bind _ _ (try-Emits _ (Emits-ask (open_file path) tt) _) λ _. Emits-pure path

module _ (base64 : Base64) (c : LdapCredentials) (codec : Codec) (html_quote : String → String)
    (fuel : ℕ) (s : Settings) (hostname : String) where
  configure_server-Emits :
      (files : List (String × String))
      → Emits IsAny
          (configure_server codec html_quote fuel s (ldap_context base64 c) hostname files)
  unfolding configure_server
  configure_server-Emits files =
      Emits-bind _ _ (IsAny-Emits _ (generate_certificate_and_config-Emits s hostname _)) λ config.
        Emits-bind _ _ (IsAny-Emits _ (save_configuration-Emits codec s config _)) λ _.
          Emits-bind _ _ (IsAny-Emits _ (add_service_in_ldap-Emits base64 c hostname)) λ _.
            Emits-bind _ _ (IsAny-Emits _ check_docker_container-Emits) λ container.
              Emits-bind _ _ (IsAny-Emits _ (start_server-Emits container)) λ _.
                Emits-bind _ _ (mapped-Emits _ (Emits-lift _) _) λ root.
                  Emits-bind _ _
                    (mapped-Emits _
                      (IsAny-Emits _
                        (create_acl_token-Emits codec html_quote fuel server hostname root))
                      _)
                    λ token. Emits-bind _ _ (IsAny-Emits _ (set_acl_token-Emits token root)) λ _.
                      Emits-bind _ _ (check-Emits _ (Emits-ask (write_file _ _ 0o400) tt))
                        λ _. IsAny-Emits _ (enable_server-Emits container)

  module _ (env : Env) where
    import_credential-Triple :
        Triple env
          (Unlocked env HasFiles)
          (import_credential codec html_quote fuel s (ldap_context base64 c) hostname)
          (λ _. Open env HasFiles)
          (Unlocked env HasFiles)
    unfolding import_credential
    import_credential-Triple =
        Triple-bind _ _ (opening env HasFiles _ (open_cluster_credential-Emits _)) λ credential.
          Triple-bind _ _
            (Triple-on_error _ _ (new_reader-Triple env HasFiles credential s.password) (λ h o. o)
              (λ e. Triple-fail _ _))
            λ items.
              let unlocked = Decrypted-Unlocked env HasFiles items in
              Triple-bind _ _ (Triple-known unlocked _) λ ca.
                Triple-bind _ _ (Triple-known (λ h p. unlocked h p.1) _) λ local_ca.
                  Triple-bind _ _ (Triple-known (λ h p. unlocked h p.1.1) _) λ ca_key.
                    Triple-bind _ _ (Triple-known (λ h p. unlocked h p.1.1.1) _) λ local_ca_key.
                      Triple-bind _ _ (Triple-lift (λ h p. unlocked h p.1.1.1.1) _) λ files.
                        Triple-before _
                          (λ h p.
                            Decrypted-Open env HasFiles items h
                              (record {
                                ca = ca;
                                ca_key = ca_key;
                                files = files;
                                ca_found = p.1.1.1.1.0;
                                ca_key_found = p.1.1.0;
                                read = p.0;
                              })
                              p.1.1.1.1.1)
                          (opened env HasFiles _ (
                            Emits-bind _ _ (check-Emits _ (Emits-ask (write_file _ _ 0o600) tt))
                              λ _.
                                Emits-bind _ _ (IsAny-Emits _ (set_strict_permissions-Emits _)) λ _.
                                  Emits-bind _ _
                                    (check-Emits _ (Emits-ask (write_file _ _ 0o600) tt))
                                    λ _.
                                      Emits-deferring _ (remove _) tt
                                        (configure_server-Emits files)))

    -- From the opening of the credential on, the setup of a further server calls nothing but what the
    -- opening needs before it has decrypted the credential and found the four files in it. On every
    -- path and in every environment, each other call of the run comes behind a message that was
    -- decrypted and has them, if that held of the calls before the run. What `importSetup` does before
    -- it opens the credential, the download of it included, is not part of this.
    pub import_credential-Unlocked :
        (h : List Call)
        → Unlocked env HasFiles h
        → Unlocked env HasFiles
            (import_credential codec html_quote fuel s (ldap_context base64 c) hostname env h).1
    import_credential-Unlocked h o =
        let ran =
          import_credential codec html_quote fuel s (ldap_context base64 c) hostname env h in
        Post-Ordered IsOpening (Opens env HasFiles) ran.0 ran.1 (import_credential-Triple.at h o)
