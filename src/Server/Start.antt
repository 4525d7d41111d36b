-- ===== src/Server/Start.antt =====
-- cmd/server/command/setup/firstsetup.go and importsetup.go: the start of the server's daemon, and
-- the certification authority.
use service_discover.Common.{ℕ, ◌<>◌, Bool, [], ◌∷◌, if◌then◌else◌}
use service_discover.Errors.{Error, message, wrapped, error_text}
use service_discover.World.{command_run}
use service_discover.Prog.{Prog, ask, check, pure, map_error, ◌>>=◌, ◌>>◌}
use service_discover.Permissions.{set_strict_permissions}
use service_discover.Exec.{in_path, error_from_stderr}
use service_discover.Systemd.{start_systemd_unit, enable_systemd_unit}
use service_discover.Command.AclToken.{consul_bin}
use service_discover.Agent.Setup.{check_docker_container, unit_name}
use service_discover.Server.{Settings}
use service_discover.Server.Leader.{wait_for_consul_leader}

-- The start, in a container without systemd.
unfoldable pub start_server : (container : Bool) → Prog Error (Unit {0})
start_server container =
    if container
    then map_error (check (ask (command_run "service-discoverd-docker" ("server" ∷ []))))
        (wrapped "unable to start service-discoverd server")
    else map_error (start_systemd_unit unit_name) (wrapped ("unable to start " <> unit_name))

-- `startServiceDiscover`
unfoldable pub start_service_discover : (fuel : ℕ) → Prog Error Bool
unfolding start_server
start_service_discover fuel = do
  container ← check_docker_container
  start_server container
  wait_for_consul_leader fuel
  pure container

-- The unit is enabled at the end, outside a container.
unfoldable pub enable_server : (container : Bool) → Prog Error (Unit {0})
enable_server container =
    if container
    then pure tt
    else map_error (enable_systemd_unit unit_name)
        (λ e. message ("unable to enable " <> (unit_name <> (" unit: " <> error_text e))))

-- `generateCertificationAuthority`
unfoldable pub generate_certification_authority : Settings → Prog Error (Unit {0})
generate_certification_authority s = do
  map_error
      (in_path consul_bin ("tls" ∷ "ca" ∷ "create" ∷ "-days=10950" ∷ "-name-constraint" ∷ [])
        s.consul_home)
      (λ e. error_from_stderr e "unable to create a valid CA with Consul")
  set_strict_permissions (s.consul_home <> "/consul-agent-ca-key.pem")
  set_strict_permissions (s.consul_home <> "/consul-agent-ca.pem")
