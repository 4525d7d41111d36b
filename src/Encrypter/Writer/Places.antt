-- ===== src/Encrypter/Writer/Places.antt =====
-- pkg/encrypter/writer.go: the place of a file in the archive.
use service_discover.Common.{String, List, ◌∷◌, ◌≡◌, ◌is◌, refl, if◌then◌else◌}
use service_discover.Errors.{message, ok}
use service_discover.FilePath.{join_path}
use service_discover.World.{Call, Env, FileInfo, tar_header, tar_copy}
use service_discover.Prog.{fails, returns, running}
use service_discover.Encrypter.Writer.{add_file}

-- The name that the file is asked to have: its own if there is no other.
abbrev pub asked_name : FileInfo → String → String
asked_name stat custom = if custom is "" then stat.name else custom

abbrev pub header_call : FileInfo → (custom : String) → Call
header_call stat custom =
    tar_header
      (record { name = join_path "." (asked_name stat custom); size = stat.size; mode = stat.mode })

module _ (reader : String) (stat : FileInfo) (custom : String) (env : Env) (h : List Call) where
  -- `AddFile` does not treat the directories `/` and the empty one alike. In `/` a file is added
  -- under its name made relative, with its size and its mode, where the archive takes it. In the
  -- empty directory every file is refused, and nothing is written.
  pub add_file-places :
      env.reply h (header_call stat custom) ≡ ok tt
      → env.reply (header_call stat custom ∷ h) (tar_copy reader) ≡ ok tt
      → (add_file reader stat custom "/" env h
          ≡ (returns tt, tar_copy reader ∷ header_call stat custom ∷ h))
        × (add_file reader stat custom "" env h
            ≡ (fails (message "Rel: can't make . relative to /"), h))
  unfolding add_file running
  add_file-places e f = (rw (e, f), refl)
