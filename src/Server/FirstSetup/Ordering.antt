-- ===== src/Server/FirstSetup/Ordering.antt =====
-- cmd/server/command/setup/firstsetup.go: the ACL is bootstrapped on a Consul that has a leader.
use service_discover.Common.{
  is-cases, refl, ℕ, zero, suc, ◌+◌, String, Bool, true, List, ◌∷◌, ◌≡◌, ◌≢◌, inl, inr, Bool-cases,
  ltb,
}
use service_discover.Errors.{Error, Result, ok, err}
use service_discover.Json.{Codec}
use service_discover.World.{
  Call, Env, command_output, consul_leader, now, sleep, time_over, create_temp, write_file, remove,
}
use service_discover.Prog.{Prog, ask, running, pure}
use service_discover.Prog.Emits.{
  Emits, Emits-ask, Emits-bind, Emits-lift, Emits-pure, Emits-fail, Emits-panic, Emits-if,
  Emits-maybe, Emits-deferring, Emits-weaken, check-Emits, mapped-Emits,
}
use service_discover.Prog.Order.{IsAny, IsAny-Emits, Ordered, OrderedHappened, before, behind}
use service_discover.Prog.Triple.{Triple, Post, Triple-bind}
use service_discover.Carbonio.Ldap.{Base64, LdapCredentials, ldap_context}
use service_discover.Command.AclToken.{server, consul_bin}
use service_discover.Command.BootstrapToken.{consul_acl_bootstrap}
use service_discover.Steps.{
  IsStep, check_hostname_address-Emits, check_docker_container-Emits, create_acl_token-Emits,
  set_acl_token-Emits,
}
use service_discover.Server.{Settings}
use service_discover.Server.Leader.{is_elected, poll_leader, wait_for_consul_leader, leader_timeout}
use service_discover.Server.Bootstrap.{bootstrap_command, create_acl_bootstrap_token, sent, receive}
use service_discover.Server.Start.{start_service_discover}
use service_discover.Server.FirstSetup.Steps.{
  generate_certification_authority-Emits, generate_gossip_key-Emits,
  generate_certificate_and_config-Emits, save_configuration-Emits, add_service_in_ldap-Emits,
  start_server-Emits, publish_credentials-Emits, enable_server-Emits,
}
use service_discover.Server.FirstSetup.{store_credentials, install_server}

-- Another call than the command that bootstraps the ACL.
abbrev pub IsNoBootstrap : Call → Type 0
IsNoBootstrap (command_output _ args) = args ≢ bootstrap_command
IsNoBootstrap _ = Unit

IsStep-IsNoBootstrap : (c : Call) → IsStep c → IsNoBootstrap c
IsStep-IsNoBootstrap (command_output _ _) k = k
IsStep-IsNoBootstrap _ k = tt

elected_leader :
    (r : Result String)
    → is_elected r ≡ true
    → (leader : String) × ((r ≡ ok leader) × (leader ≢ ""))
elected_leader (ok leader) t =
    (leader, (refl, λ empty. elim (is-cases leader "") [ inl (_, b) ↦ cc | inr (n, _) ↦ n empty ]))
elected_leader (err e) t = cc

module _ (env : Env) where
  -- Consul was asked for its leader, and named one.
  abbrev pub Elects : (before : List Call) → Call → Type 0
  Elects h consul_leader =
      (leader : String) × ((env.reply h consul_leader ≡ ok leader) × (leader ≢ ""))
  Elects h _ = ⊥

  -- Each command of the history is another one than the bootstrap of the ACL, or a leader was named
  -- before it.
  abbrev pub Led : List Call → Type 0
  Led = Ordered IsNoBootstrap Elects

  abbrev LedElected : List Call → Type 0
  LedElected = OrderedHappened IsNoBootstrap Elects

  -- Before the election, and behind it.
  pub waiting : {A : Type 0} (m : Prog Error A) → Emits IsStep m → Triple env Led m (λ _. Led) Led
  waiting m k = before IsNoBootstrap Elects env m (Emits-weaken IsStep-IsNoBootstrap m k)

  elected :
      {A : Type 0} (m : Prog Error A)
      → Emits IsAny m
      → Triple env LedElected m (λ _. LedElected) Led
  elected = behind IsNoBootstrap Elects env

  poll_leader-Elected :
      (fuel deadline : ℕ) (h : List Call)
      → Led h
      → let ran = poll_leader fuel deadline env h in Post (λ _. LedElected) Led ran.0 ran.1
  unfolding poll_leader running
  poll_leader-Elected zero deadline h l = l
  poll_leader-Elected (suc fuel) deadline h l =
      elim (Bool-cases (is_elected (env.reply h consul_leader))) [
        | inl found ↦ rw found ((inl tt, l), inl (elected_leader _ found))
        | inr none_found ↦
            rw none_found (elim (Bool-cases (ltb deadline (env.reply (consul_leader ∷ h) now))) [
              | inl over ↦ rw over (inl tt, (inl tt, l))
              | inr more ↦ rw more (
                  poll_leader-Elected fuel deadline (sleep 250 ∷ now ∷ consul_leader ∷ h)
                    (inl tt, (inl tt, (inl tt, l))))
            ])
      ]

  wait_for_consul_leader-Triple :
      (fuel : ℕ) → Triple env Led (wait_for_consul_leader fuel) (λ _. LedElected) Led
  unfolding wait_for_consul_leader
  wait_for_consul_leader-Triple fuel =
      Triple-bind _ _ (waiting (ask now) (Emits-ask now tt))
        λ time. record { at = poll_leader-Elected fuel (time + leader_timeout) }

  start_service_discover-Triple :
      (fuel : ℕ) → Triple env Led (start_service_discover fuel) (λ _. LedElected) Led
  unfolding start_service_discover
  start_service_discover-Triple fuel =
      Triple-bind _ _ (waiting _ check_docker_container-Emits) λ container.
        Triple-bind _ _ (waiting _ (start_server-Emits container)) λ _.
          Triple-bind _ _ (wait_for_consul_leader-Triple fuel)
            λ _. elected (pure container) (Emits-pure container)

create_acl_bootstrap_token-Emits : (fuel : ℕ) → Emits IsAny (create_acl_bootstrap_token fuel)
unfolding create_acl_bootstrap_token
create_acl_bootstrap_token-Emits zero = Emits-panic _
create_acl_bootstrap_token-Emits (suc fuel) =
    Emits-bind _ _ (Emits-ask (time_over 30_000) tt) λ over. Emits-if over _ _ (Emits-fail _) (
      Emits-bind _ _ (Emits-ask (command_output consul_bin bootstrap_command) tt) λ answer.
        Emits-maybe (sent answer) _ receive (create_acl_bootstrap_token-Emits fuel) λ r.
          Emits-bind _ _ (Emits-ask (time_over 30_000) tt)
            λ late. Emits-if late _ _ (Emits-fail _) (Emits-lift _))

module _ (base64 : Base64) (c : LdapCredentials)
    (ranged : List (String × String) → List (String × String)) (s : Settings) where
  store_credentials-Emits :
      (acl_json gossip_key password : String) (container : Bool)
      → Emits IsAny (
          store_credentials ranged s (ldap_context base64 c) acl_json gossip_key password container)
  unfolding store_credentials
  store_credentials-Emits acl_json gossip_key password container =
      Emits-bind _ _ (check-Emits _ (Emits-ask (create_temp "" consul_acl_bootstrap) tt))
        λ acl_file. Emits-deferring _ (remove acl_file) tt (
          Emits-bind _ _ (check-Emits _ (Emits-ask (write_file acl_file acl_json 0o600) tt)) λ _.
            Emits-bind _ _ (check-Emits _ (Emits-ask (create_temp "" "gossip-key") tt))
              λ gossip_file. Emits-deferring _ (remove gossip_file) tt (
                Emits-bind _ _
                  (IsAny-Emits _ (
                    publish_credentials-Emits base64 c ranged s acl_file gossip_file gossip_key
                      password))
                  λ _. IsAny-Emits _ (enable_server-Emits container)))

  module _ (codec : Codec) (html_quote : String → String) (fuel : ℕ) (env : Env) where
    pub install_server-Triple :
        (hostname password bind_address : String)
        → Triple env
            (Led env)
            (install_server ranged codec html_quote fuel base64 s
              (ldap_context base64 c)
              hostname
              password
              bind_address)
            (λ _. LedElected env)
            (Led env)
    unfolding install_server
    install_server-Triple hostname password bind_address =
        Triple-bind _ _ (waiting env _ (check_hostname_address-Emits hostname)) λ _.
          Triple-bind _ _ (waiting env _ (generate_certification_authority-Emits s)) λ _.
            Triple-bind _ _ (waiting env _ (generate_gossip_key-Emits base64)) λ key.
              Triple-bind _ _ (waiting env _ (generate_certificate_and_config-Emits s hostname key))
                λ config.
                  Triple-bind _ _
                    (waiting env _ (save_configuration-Emits codec s config bind_address))
                    λ _.
                      Triple-bind _ _ (waiting env _ (add_service_in_ldap-Emits base64 c hostname))
                        λ _. Triple-bind _ _ (start_service_discover-Triple env fuel) λ container.
                          Triple-bind _ _ (elected env _ (create_acl_bootstrap_token-Emits fuel))
                            λ acl_json.
                              Triple-bind _ _ (elected env _ (mapped-Emits _ (Emits-lift _) _))
                                λ root.
                                  Triple-bind _ _
                                    (elected env _ (
                                      IsAny-Emits _ (
                                        create_acl_token-Emits codec html_quote fuel server hostname
                                          root)))
                                    λ token.
                                      Triple-bind _ _
                                        (elected env _
                                          (IsAny-Emits _ (set_acl_token-Emits token root)))
                                        λ _.
                                          elected env _ (
                                            store_credentials-Emits acl_json key password container)
