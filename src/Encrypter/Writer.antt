-- ===== src/Encrypter/Writer.antt =====
-- pkg/encrypter/writer.go: the encrypted tarball is written through three writers, one in the other.
pub mod Places
use service_discover.Common.{ℕ, String, ◌<>◌, ◌is◌, if◌then◌else◌}
use service_discover.Errors.{Error, message, error_text, Result}
use service_discover.FilePath.{dir, rel_root, join_path}
use service_discover.World.{
  FileInfo, armor_open, armor_close, pgp_open, pgp_close, tar_header, tar_copy, tar_flush,
  tar_close, tar_write,
}
use service_discover.Prog.{Prog, ask, check, map_error, result, ◌>>=◌, ◌>>◌}

-- `NewWriter`
unfoldable pub new_writer : (passphrase : String) → Prog Error (Unit {0})
new_writer passphrase = do
  map_error (check (ask armor_open))
      (λ e. message ("failure while encrypting the secret credentials: " <> error_text e))
  map_error (check (ask (pgp_open passphrase)))
      (λ e. message ("unable to encrypt the stream using PGP: " <> error_text e))

-- `Close`: from the inside out.
unfoldable pub close_writer : Prog Error (Unit {0})
close_writer = do check (ask tar_close); check (ask pgp_close); check (ask armor_close)

-- `Write`: the number of bytes is the tar library's.
unfoldable pub write : (bytes : String) → Prog Error (Result ℕ)
write bytes = ask (tar_write bytes)

-- `Flush`
unfoldable pub flush : Prog Error (Unit {0})
flush = check (ask tar_flush)

-- The name of a file in the archive.
unfoldable pub header_name : (filename directory : String) → Result String
unfolding dir rel_root join_path
header_name filename directory = elim (rel_root (dir directory)) [
  | Result.err e ↦ Result.err e
  | Result.ok relative ↦ Result.ok (join_path relative filename)
]

-- `AddFile`: a file without a custom name keeps its own.
unfoldable pub add_file :
    (reader : String)
    → FileInfo
    → (custom_filename directory_on_archive : String) → Prog Error (Unit {0})
unfolding header_name
add_file reader stat custom_filename directory_on_archive = do
  name ← result (
      header_name (if custom_filename is "" then stat.name else custom_filename)
        directory_on_archive)
  check (ask (tar_header (record { name = name; size = stat.size; mode = stat.mode })))
  check (ask (tar_copy reader))
