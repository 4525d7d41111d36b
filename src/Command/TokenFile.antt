-- ===== src/Command/TokenFile.antt =====
-- pkg/command/service_token.go: `writeTokenFile`, which replaces a file in one step.
pub mod Atomic
use service_discover.Common.{String, ◌<>◌, Bool, true, false, ◌is◌, if◌then◌else◌}
use service_discover.FilePath.{dir}
use service_discover.Errors.{Error, wrapped, join_errors}
use service_discover.Number.{ℤ, pos, negsuc, atoi_value}
use service_discover.World.{
  lookup_user, mkdir_all, create_temp, write_string, close_file, chown, rename, remove,
}
use service_discover.Prog.{Prog, ask, check, pure, map_error, result, deferring, ◌>>=◌, ◌>>◌}

abbrev pub is_natural : ℤ → Bool
is_natural (pos _) = true
is_natural (negsuc _) = false

-- `uid, gid` for the owner, both -1 without one.
unfoldable pub owner_ids : (owner : String) → Prog Error (ℤ × ℤ)
owner_ids owner = if owner is "" then pure (negsuc 0, negsuc 0) else (do
  user ←
      map_error (check (ask (lookup_user owner)))
        (wrapped ("unable to look up token file owner " <> owner))
  pure (atoi_value user.uid, atoi_value user.gid))

-- The steps on the temporary file.
unfoldable pub fill_and_rename : (tmp path secret : String) → (uid gid : ℤ) → Prog Error (Unit {0})
fill_and_rename tmp path secret uid gid = do
  written ← ask (write_string tmp secret)
  closed ← ask (close_file tmp)
  result (join_errors written closed)
  if is_natural uid then check (ask (chown tmp uid gid)) else pure tt
  check (ask (rename tmp path))

-- `writeTokenFile`
unfoldable pub write_token_file : (path secret owner : String) → Prog Error (Unit {0})
unfolding owner_ids fill_and_rename
write_token_file path secret owner = do
  (uid, gid) ← owner_ids owner
  check (ask (mkdir_all (dir path) 0o755))
  tmp ← check (ask (create_temp (dir path) ".token-*"))
  deferring (fill_and_rename tmp path secret uid gid) (remove tmp)
