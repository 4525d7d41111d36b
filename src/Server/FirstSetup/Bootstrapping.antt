-- ===== src/Server/FirstSetup/Bootstrapping.antt =====
-- cmd/server/command/setup/firstsetup.go: `firstSetup` as a whole bootstraps the ACL on a Consul that has
-- a leader.
use service_discover.Common.{ℕ, String, Bool, true, List, [], ◌∷◌, ◌≡◌, refl, subst, sym}
use service_discover.Errors.{Error, Result}
use service_discover.Json.{Codec}
use service_discover.World.{Call, Env, read_file, addr_resolver, net_interfaces}
use service_discover.Prog.{Prog, pure, ◌>>=◌}
use service_discover.Prog.Emits.{
  Emits, Emits-ask, Emits-pure, Emits-fail, Emits-lift, Emits-if, Emits-bind, check-Emits,
  try-Emits, mapped-Emits,
}
use service_discover.Prog.Triple.{Triple, Post-every, Triple-bind, Triple-then}
use service_discover.Carbonio.LocalConfig.{RawKey, LocalConfig, load_local_config, load_raw}
use service_discover.Carbonio.Ldap.{
  Base64, LdapHandler, LdapCredentials, ldap_context, create_new_handler, read_credentials,
}
use service_discover.Carbonio.Ldap.Connection.{check_server_availability-Emits}
use service_discover.Command.Network.{
  non_loopback_interfaces, check_valid_binding_address, search_binding,
}
use service_discover.Command.Credentials.{retrieve_hostname}
use service_discover.Steps.{IsStep}
use service_discover.Server.{Settings}
use service_discover.Server.FirstSetup.Steps.{ldap-IsStep}
use service_discover.Server.FirstSetup.Ordering.{Led, waiting, install_server-Triple}
use service_discover.Server.FirstSetup.{install_server, perform_setup, first_setup}

non_loopback_interfaces-Emits : Emits IsStep non_loopback_interfaces
unfolding non_loopback_interfaces
non_loopback_interfaces-Emits =
    Emits-bind _ _ (check-Emits _ (Emits-ask net_interfaces tt)) λ networks. Emits-lift _

search_binding-Emits :
    (networks : List String) (b : String) (valid : Bool)
    → Emits IsStep (search_binding networks b valid)
unfolding search_binding
search_binding-Emits [] b valid = Emits-pure valid
search_binding-Emits (n ∷ networks) b valid =
    Emits-bind _ _ (Emits-ask (addr_resolver n) tt) λ addrs. search_binding-Emits networks b _

check_valid_binding_address-Emits :
    (networks : List String) (b : String) → Emits IsStep (check_valid_binding_address networks b)
unfolding check_valid_binding_address
check_valid_binding_address-Emits networks b =
    Emits-bind _ _ (search_binding-Emits networks b _)
      λ valid. Emits-if valid _ _ (Emits-pure tt) (Emits-fail _)

read_credentials-Emits : (l : LocalConfig) → Emits IsStep (read_credentials l)
unfolding read_credentials
read_credentials-Emits l = Emits-bind _ _ (Emits-lift _) λ masters.
    Emits-bind _ _ (Emits-lift _) λ replicas.
      Emits-bind _ _ (Emits-lift _) λ user. Emits-bind _ _ (Emits-lift _) λ pass. Emits-pure _

module _ (parse_xml : String → Result (List RawKey)) where
  load_local_config-Emits : (path : String) → Emits IsStep (load_local_config parse_xml path)
  unfolding load_local_config load_raw
  load_local_config-Emits path =
      Emits-bind _ _
        (Emits-bind _ _ (try-Emits _ (Emits-ask (read_file path) tt) _) λ bytes. Emits-lift _)
        λ raw. Emits-lift _

retrieve_hostname-Emits :
    (base64 : Base64) (c : LdapCredentials) (l : LocalConfig)
    → Emits IsStep (retrieve_hostname l (ldap_context base64 c))
unfolding retrieve_hostname
retrieve_hostname-Emits base64 c l =
    Emits-bind _ _ (mapped-Emits _ (check_server_availability-Emits ldap-IsStep c true) _)
      λ _. Emits-lift _

module _ (env : Env) (base64 : Base64) where
  -- The handler is one of some credentials.
  abbrev IsContext : LdapHandler → List Call → Type 0
  IsContext ldap h = ((c : LdapCredentials) × (ldap ≡ ldap_context base64 c)) × Led env h

  create_new_handler-Triple :
      (l : LocalConfig) → Triple env (Led env) (create_new_handler base64 l) IsContext (Led env)
  unfolding create_new_handler pure
  create_new_handler-Triple l =
      Triple-bind _ _ (waiting env _ (read_credentials-Emits l))
        λ c. record { at = λ h led. ((c, refl), led) }

  -- What holds of the handlers of all credentials.
  with-IsContext :
      {A : Type 0} (ldap : LdapHandler) (m : LdapHandler → Prog Error A)
      → ((c : LdapCredentials)
          → Triple env (Led env) (m (ldap_context base64 c)) (λ _. Led env) (Led env))
      → Triple env (IsContext ldap) (m ldap) (λ _. Led env) (Led env)
  with-IsContext {A} ldap m k = record {
    at = λ h p.
        let ((c, e), led) = p in
        (subst (λ l. Triple env (Led env) (m l) (λ _. Led env) (Led env)) (sym e) (k c)).at h led;
  }

  module _ (ranged : List (String × String) → List (String × String)) (codec : Codec)
      (html_quote : String → String) (fuel : ℕ) (parse_xml : String → Result (List RawKey)) where
    perform_setup-Triple :
        (s : Settings) (password bind_address : String)
        → Triple env
            (Led env)
            (perform_setup ranged codec html_quote fuel base64 parse_xml s password bind_address)
            (λ _. Led env)
            (Led env)
    unfolding perform_setup
    perform_setup-Triple s password bind_address =
        Triple-bind _ _ (waiting env _ (load_local_config-Emits parse_xml _)) λ config.
          Triple-bind _ _ (create_new_handler-Triple config) λ ldap.
            with-IsContext ldap
              (λ l. retrieve_hostname config l >>= λ hostname.
                install_server ranged codec html_quote fuel base64 s l hostname password
                  bind_address)
              λ c.
                Triple-bind _ _ (waiting env _ (retrieve_hostname-Emits base64 c config))
                  λ hostname.
                    Triple-then _ _ _ _ (λ _ h p. p.0)
                      (install_server-Triple base64 c ranged s codec html_quote fuel env hostname
                        password bind_address)

    first_setup-Triple :
        (s : Settings)
        → Triple env
            (Led env)
            (first_setup ranged codec html_quote fuel base64 parse_xml s)
            (λ _. Led env)
            (Led env)
    unfolding first_setup
    first_setup-Triple s = Triple-bind _ _ (waiting env _ non_loopback_interfaces-Emits) λ networks.
        Triple-bind _ _ (waiting env _ (check_valid_binding_address-Emits networks s.bind_address))
          λ _.
            Triple-bind _ _ (perform_setup-Triple s s.password s.bind_address)
              λ _. waiting env _ (Emits-pure _)

    -- `firstSetup` runs `consul acl bootstrap` only behind an answer of Consul that named its leader:
    -- on every path, and whatever the environment answers, each such command of the run has one
    -- before it, if each such command before the run had one.
    pub first_setup-Led :
        (s : Settings) (h : List Call)
        → Led env h
        → Led env (first_setup ranged codec html_quote fuel base64 parse_xml s env h).1
    first_setup-Led s h l =
        let ran = first_setup ranged codec html_quote fuel base64 parse_xml s env h in
        Post-every (Led env) ran.0 ran.1 ((first_setup-Triple s).at h l)
