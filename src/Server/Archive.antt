-- ===== src/Server/Archive.antt =====
-- cmd/server/command/setup/firstsetup.go: `createEncryptedSecret`. Go ranges over the map of files in
-- an order of its own: `files` lists the map in that order.
pub mod Closing
pub mod Written
use service_discover.Common.{String, ◌<>◌, List, [], ◌∷◌}
use service_discover.Errors.{Error, message, error_text}
use service_discover.World.{create_file, chmod, close_file, open_file, file_info}
use service_discover.Prog.{Prog, ask, check, pure, map_error, deferring, finally, ◌>>=◌, ◌>>◌}
use service_discover.Encrypter.Writer.{new_writer, close_writer, add_file, flush}

abbrev pub because_of : (text : String) → Error → Error
because_of text e = message (text <> (": " <> error_text e))

-- The loop over the files: the name in the archive, and the path.
unfoldable pub add_files : List (String × String) → Prog Error (Unit {0})
add_files [] = pure tt
add_files ((name, path) ∷ files) = do
  map_error (check (ask (open_file path))) (because_of ("unable to open " <> path))
  stat ←
      map_error (check (ask (file_info path))) (because_of ("unable to stat() provided " <> path))
  map_error (add_file path stat name "/")
      (because_of ("error while creating secret credentials: unable to include " <> path))
  add_files files

-- `createEncryptedSecret`: the writer is closed behind the flush, and the errors of both closes are
-- dropped.
unfoldable pub create_encrypted_secret :
    (credential : String)
    → (files : List (String × String)) → (password : String) → Prog Error (Unit {0})
unfolding add_files
create_encrypted_secret credential files password = do
  map_error (check (ask (create_file credential))) (because_of ("unable to create " <> credential))
  deferring
      (do
        map_error (check (ask (chmod credential 0o600)))
            (because_of ("unable to change permission to " <> credential))
        new_writer password
        finally (do add_files files; flush) close_writer)
      (close_file credential)
