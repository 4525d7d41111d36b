-- ===== src/Steps.antt =====
-- The calls of the steps that the setups in cmd/*/command/setup share.
pub mod Unlocking
pub mod Temps
use service_discover.Common.{ℕ, zero, suc, String, List, [], ◌∷◌, ◌is◌, ◌≡◌, ◌≢◌, ◌⊎◌, inl, refl}
use service_discover.Json.{Codec}
use service_discover.FilePath.{dir}
use service_discover.World.{
  Call, lookup_user, lookup_group, chown, chmod, executable, chdir, command_output, write_file,
  write_string, create_file, rename, create_temp, remove, lookup_ip, stat, dbus_connect, start_unit,
  unit_result, dbus_close, enable_unit, set_env, unset_env, wait_or_deadline, armor_decode,
  read_message,
}
use service_discover.Prog.Emits.{
  Emits, Emits-ask, Emits-pure, Emits-fail, Emits-panic, Emits-lift, Emits-if, Emits-bind,
  Emits-either, Emits-deferring, Emits-weaken, check-Emits, try-Emits, mapped-Emits,
}
use service_discover.Permissions.{set_strict_permissions}
use service_discover.Exec.{in_path}
use service_discover.Systemd.{start_systemd_unit, enable_systemd_unit}
use service_discover.Command.Network.{check_hostname_address}
use service_discover.Command.Credentials.{save_bind_address}
use service_discover.Command.AclToken.{
  Role, create_loop, create_acl_token, set_acl_token, consul_bin, consul_http_token, policy_command,
  acl_policy, token_command, consul_node_name,
}
use service_discover.Encrypter.Reader.{new_reader, pass_generator}
use service_discover.Server.Bootstrap.{bootstrap_command}
use service_discover.Agent.Setup.{check_docker_container}

-- A call that neither makes nor changes a file, and runs no command for its output.
abbrev pub IsPlain : Call → Type 0
IsPlain (create_temp _ _) = ⊥
IsPlain (create_file _) = ⊥
IsPlain (write_file _ _ _) = ⊥
IsPlain (write_string _ _) = ⊥
IsPlain (remove _) = ⊥
IsPlain (rename _ _) = ⊥
IsPlain (command_output _ _) = ⊥
IsPlain _ = Unit

-- The owner alone can read such a file.
abbrev pub IsOwners : (mode : ℕ) → Type 0
IsOwners mode = (mode ≡ 0o600) ⊎ (mode ≡ 0o400)

-- A step makes no temporary file, writes files for the owner alone, and does not bootstrap the ACL.
abbrev pub IsStep : Call → Type 0
IsStep (create_temp _ _) = ⊥
IsStep (write_file _ _ mode) = IsOwners mode
IsStep (command_output _ args) = args ≢ bootstrap_command
IsStep _ = Unit

-- A call that makes no temporary file.
abbrev pub IsNotTemp : Call → Type 0
IsNotTemp (create_temp _ _) = ⊥
IsNotTemp _ = Unit

pub IsStep-IsNotTemp : (c : Call) → IsStep c → IsNotTemp c
IsStep-IsNotTemp (create_temp _ _) k = absurd k
IsStep-IsNotTemp _ k = tt

IsPlain-IsStep : (c : Call) → IsPlain c → IsStep c
IsPlain-IsStep (create_temp _ _) k = absurd k
IsPlain-IsStep (write_file _ _ _) k = absurd k
IsPlain-IsStep (command_output _ _) k = absurd k
IsPlain-IsStep _ k = tt

pub set_strict_permissions-IsPlain : (path : String) → Emits IsPlain (set_strict_permissions path)
unfolding set_strict_permissions
set_strict_permissions-IsPlain path =
    Emits-bind _ _ (try-Emits _ (Emits-ask (lookup_user "service-discover") tt) _) λ user.
      Emits-bind _ _ (mapped-Emits _ (Emits-lift _) _) λ uid.
        Emits-bind _ _ (try-Emits _ (Emits-ask (lookup_group "service-discover") tt) _) λ group.
          Emits-bind _ _ (mapped-Emits _ (Emits-lift _) _) λ gid.
            Emits-bind _ _ (try-Emits _ (Emits-ask (chown path uid gid) tt) _)
              λ _. try-Emits _ (Emits-ask (chmod path 0o600) tt) _

pub set_strict_permissions-Emits : (path : String) → Emits IsStep (set_strict_permissions path)
set_strict_permissions-Emits path =
    Emits-weaken IsPlain-IsStep _ (set_strict_permissions-IsPlain path)

pub in_path-Emits :
    (name : String) (args : List String) (path : String)
    → args ≢ bootstrap_command
    → Emits IsStep (in_path name args path)
unfolding in_path
in_path-Emits name args path n = Emits-bind _ _ (check-Emits _ (Emits-ask executable tt)) λ p.
    Emits-bind _ _ (check-Emits _ (Emits-ask (chdir path) tt)) λ _.
      Emits-bind _ _ (check-Emits _ (Emits-ask (command_output name args) n))
        λ _. check-Emits _ (Emits-ask (chdir (dir p)) tt)

pub check_hostname_address-Emits : (host : String) → Emits IsStep (check_hostname_address host)
unfolding check_hostname_address
check_hostname_address-Emits host =
    Emits-bind _ _ (try-Emits _ (Emits-ask (lookup_ip host) tt) _) λ addrs. Emits-lift _

pub check_docker_container-Emits : Emits IsStep check_docker_container
unfolding check_docker_container
check_docker_container-Emits =
    Emits-bind _ _ (Emits-ask (stat "/.dockerenv") tt) λ found. Emits-pure _

pub start_systemd_unit-Emits : (unit : String) → Emits IsStep (start_systemd_unit unit)
unfolding start_systemd_unit
start_systemd_unit-Emits unit = Emits-bind _ _ (try-Emits _ (Emits-ask dbus_connect tt) _) λ _.
    Emits-deferring _ dbus_close tt (
      Emits-bind _ _ (try-Emits _ (Emits-ask (start_unit unit "replace") tt) _) λ _.
        Emits-bind _ _ (Emits-ask unit_result tt)
          λ output. Emits-if (output is "done") _ _ (Emits-pure tt) (Emits-fail _))

pub enable_systemd_unit-Emits : (unit : String) → Emits IsStep (enable_systemd_unit unit)
unfolding enable_systemd_unit
enable_systemd_unit-Emits unit =
    Emits-bind _ _ (try-Emits _ (Emits-ask dbus_connect tt) _)
      λ _. Emits-deferring _ dbus_close tt (check-Emits _ (Emits-ask (enable_unit unit) tt))

pub new_reader-IsPlain : (reader passphrase : String) → Emits IsPlain (new_reader reader passphrase)
unfolding new_reader
new_reader-IsPlain reader passphrase =
    Emits-bind _ _ (check-Emits _ (Emits-ask (armor_decode reader) tt))
      λ body. check-Emits _ (Emits-ask (read_message body (pass_generator passphrase)) tt)

pub new_reader-Emits : (reader passphrase : String) → Emits IsStep (new_reader reader passphrase)
new_reader-Emits reader passphrase =
    Emits-weaken IsPlain-IsStep _ (new_reader-IsPlain reader passphrase)

pub set_acl_token-Emits : (token root : String) → Emits IsStep (set_acl_token token root)
unfolding set_acl_token
set_acl_token-Emits token root =
    Emits-bind _ _ (try-Emits _ (Emits-ask (set_env consul_http_token root) tt) _) λ _.
      Emits-deferring _ (unset_env consul_http_token) tt (
        Emits-bind _ _
          (try-Emits _
            (Emits-ask
              (command_output consul_bin ("acl" ∷ "set-agent-token" ∷ "default" ∷ token ∷ []))
              (λ e. cc))
            _)
          λ _. Emits-pure tt)

pub save_bind_address-Emits :
    (codec : Codec) (path address : String) → Emits IsStep (save_bind_address codec path address)
unfolding save_bind_address
save_bind_address-Emits codec path address =
    Emits-bind _ _ (Emits-lift _)
      λ bytes. check-Emits _ (Emits-ask (write_file path bytes 0o600) (inl refl))

module _ (codec : Codec) (html_quote : String → String) where
  create_loop-Emits :
      (fuel : ℕ) (policy : String) → Emits IsStep (create_loop codec html_quote fuel policy)
  unfolding create_loop
  create_loop-Emits zero policy = Emits-panic _
  create_loop-Emits (suc fuel) policy =
      Emits-bind _ _
        (Emits-ask
          (command_output consul_bin (policy_command policy (acl_policy (html_quote policy))))
          (λ e. cc))
        λ _.
          Emits-bind _ _ (Emits-ask (command_output consul_bin (token_command policy)) (λ e. cc))
            λ created.
              Emits-either created _ _ (λ response. mapped-Emits _ (Emits-lift _) _)
                λ e.
                  Emits-bind _ _ (Emits-ask (wait_or_deadline 1000) tt)
                    λ over. Emits-if over _ _ (Emits-fail _) (create_loop-Emits fuel policy)

  pub create_acl_token-Emits :
      (fuel : ℕ) (role : Role) (host root : String)
      → Emits IsStep (create_acl_token codec html_quote fuel role host root)
  unfolding create_acl_token
  create_acl_token-Emits fuel role host root =
      Emits-bind _ _ (try-Emits _ (Emits-ask (set_env consul_http_token root) tt) _) λ _.
        Emits-deferring _ (unset_env consul_http_token) tt
          (create_loop-Emits fuel (consul_node_name role host))
