-- ===== src/Permissions.antt =====
-- pkg/permissions/permissions.go
use service_discover.Common.{String, ◌<>◌}
use service_discover.Errors.{Error, message, error_text}
use service_discover.Number.{ℤ, atoi}
use service_discover.World.{lookup_user, lookup_group, chown, chmod}
use service_discover.Prog.{Prog, ask, check, map_error, result, ◌>>=◌, ◌>>◌}

-- `errors.New(prefix + err.Error())`
abbrev pub because : String → Error → Error
because prefix e = message (prefix <> error_text e)

-- A call of `strconv.Atoi`, which is no call of the world.
abbrev pub parse_id : String → Prog Error ℤ
parse_id s = result (atoi s)

-- `SetStrictPermissions`
unfoldable pub set_strict_permissions : String → Prog Error (Unit {0})
set_strict_permissions path = do
  user ←
      map_error (check (ask (lookup_user "service-discover")))
        (because "cannot find user service-discover: ")
  uid ← map_error (parse_id user.uid) (because "cannot parse user id for service-discover: ")
  group ←
      map_error (check (ask (lookup_group "service-discover")))
        (because "cannot find group service-discover: ")
  gid ← map_error (parse_id group.gid) (because "cannot parse group id for service-discover: ")
  map_error (check (ask (chown path uid gid)))
      (because ("cannot change ownership of '" <> (path <> "': ")))
  map_error (check (ask (chmod path 0o600)))
      (because ("cannot change permissions of '" <> (path <> "': ")))
