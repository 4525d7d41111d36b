-- ===== src/Agent/KeyFile.antt =====
-- cmd/agent/command/setup/setup.go: the temporary file with the key of the certification authority.
use service_discover.Common.{ℕ, String, Bool, List, [], ◌∷◌, inl, refl}
use service_discover.Json.{Codec}
use service_discover.World.{command_run, write_file, remove}
use service_discover.Prog.Emits.{
  Emits, Emits-ask, Emits-pure, Emits-lift, Emits-if, Emits-bind, check-Emits, try-Emits,
  mapped-Emits,
}
use service_discover.Command.AclToken.{agent}
use service_discover.Steps.{
  IsStep, in_path-Emits, set_strict_permissions-Emits, start_systemd_unit-Emits,
  save_bind_address-Emits, check_docker_container-Emits, create_acl_token-Emits,
  set_acl_token-Emits, enable_systemd_unit-Emits,
}
use service_discover.Agent.Setup.{
  Settings, with_key_file, configure_agent, create_tls_certificate, start_daemon, unit_name,
}

create_tls_certificate-Emits :
    (s : Settings) (ca key : String) → Emits IsStep (create_tls_certificate s ca key)
unfolding create_tls_certificate
create_tls_certificate-Emits s ca key =
    Emits-bind _ _ (mapped-Emits _ (in_path-Emits _ _ _ (λ e. cc)) _)
      λ _. Emits-bind _ _ (set_strict_permissions-Emits _) λ _. set_strict_permissions-Emits _

pub with_key_file-Emits :
    (s : Settings) (ca file key : String) → Emits IsStep (with_key_file s ca file key)
unfolding with_key_file
with_key_file-Emits s ca file key =
    Emits-bind _ _ (check-Emits _ (Emits-ask (write_file file key 0o600) (inl refl))) λ _.
      Emits-bind _ _ (set_strict_permissions-Emits _) λ _.
        Emits-bind _ _ (create_tls_certificate-Emits s ca file)
          λ _. try-Emits _ (Emits-ask (remove file) tt) _

start_daemon-Emits : (container : Bool) → Emits IsStep (start_daemon container)
unfolding start_daemon
start_daemon-Emits container =
    Emits-if container _ _
      (try-Emits _ (Emits-ask (command_run "service-discoverd-docker" ("agent" ∷ [])) tt) _)
      (mapped-Emits _ (start_systemd_unit-Emits unit_name) _)

module _ (codec : Codec) (html_quote : String → String) where
  pub configure_agent-Emits :
      (fuel : ℕ) (s : Settings) (host : String) (files : List (String × String))
      → Emits IsStep (configure_agent codec html_quote fuel s host files)
  unfolding configure_agent
  configure_agent-Emits fuel s host files = Emits-bind _ _ (Emits-lift _) λ config.
      Emits-bind _ _
        (try-Emits _ (Emits-ask (write_file s.consul_file_config config 0o600) (inl refl)) _)
        λ _. Emits-bind _ _ (set_strict_permissions-Emits _) λ _.
          Emits-bind _ _ (save_bind_address-Emits codec _ _) λ _.
            Emits-bind _ _ (set_strict_permissions-Emits _) λ _.
              Emits-bind _ _ check_docker_container-Emits λ container.
                Emits-bind _ _ (start_daemon-Emits container) λ _.
                  Emits-bind _ _ (mapped-Emits _ (Emits-lift _) _) λ root.
                    Emits-bind _ _
                      (mapped-Emits _ (create_acl_token-Emits codec html_quote fuel agent host root)
                        _)
                      λ token. Emits-bind _ _ (set_acl_token-Emits token root) λ _.
                        Emits-if container _ _ (Emits-pure tt)
                          (mapped-Emits _ (enable_systemd_unit-Emits unit_name) _)
