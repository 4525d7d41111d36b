-- ===== src/Server/Archive/Written.antt =====
-- cmd/server/command/setup/firstsetup.go: what the archive of `createEncryptedSecret` holds.
use service_discover.Common.{String, List, [], ◌∷◌, ◌++◌, ◌≡◌, refl, ◌∙◌, sym, ap}
use mathlib.Core.List.{append_assoc, append-nil}
use service_discover.Errors.{ok}
use service_discover.FilePath.{join_path}
use service_discover.World.{
  Call, Env, FileInfo, create_file, chmod, armor_open, pgp_open, open_file, file_info, close_file,
  tar_header, tar_copy, tar_flush, tar_close, pgp_close, armor_close,
}
use service_discover.Prog.{returns, running}
use service_discover.Encrypter.Writer.{new_writer, add_file, flush, close_writer}
use service_discover.Encrypter.Writer.Places.{asked_name, header_call}
use service_discover.Server.Archive.{add_files, create_encrypted_secret}
use service_discover.Server.Archive.Closing.{Writes, AreReadable}

-- The entries of the archive that is being written, in order. `content` is what the files hold.
abbrev pub begun : (content : String → String) → List Call → List (String × String)
begun content [] = []
begun content (armor_open ∷ h) = []
begun content (tar_copy path ∷ tar_header header ∷ h) =
    begun content h ++ (header.name, content path) ∷ []
begun content (_ ∷ h) = begun content h

-- The entries of the last archive of a history, if its calls were answered without an error. It is
-- one that can be read only if the tarball, the encryption and the armor are closed, in this order.
abbrev pub written : (content : String → String) → List Call → List (String × String)
written content (close_file _ ∷ h) = written content h
written content (armor_close ∷ pgp_close ∷ tar_close ∷ h) = begun content h
written content _ = []

-- The archive is closed as well.
pub record Closes (env : Env) : Type 0 where
  pub tar_closed : (h : List Call) → env.reply h tar_close ≡ ok tt
  pub pgp_closed : (h : List Call) → env.reply h pgp_close ≡ ok tt
  pub armor_closed : (h : List Call) → env.reply h armor_close ≡ ok tt

-- The entries for the files: each under its name made relative.
abbrev pub entries_of :
    (content : String → String)
    → (info : String → FileInfo) → List (String × String)
    → List (String × String)
entries_of content info [] = []
entries_of content info ((name, path) ∷ files) =
    (join_path "." (asked_name (info path) name), content path) ∷ entries_of content info files

module _ (env : Env) (Readable : String → Type 0) (w : Writes env Readable) where
  -- The calls for the files.
  abbrev adding : List (String × String) → List Call → List Call
  adding [] h = h
  adding ((name, path) ∷ files) h =
      adding files
        (tar_copy path ∷ header_call (w.info path) name ∷ file_info path ∷ open_file path ∷ h)

  add_file-run :
      (name path : String)
      → Readable path
      → (h : List Call)
      → add_file path (w.info path) name "/" env h
        ≡ (returns tt, tar_copy path ∷ header_call (w.info path) name ∷ h)
  unfolding add_file running
  add_file-run name path r h = let copied = w.copied path r in simp (w.begun, copied)

  add_files-run :
      (files : List (String × String)) (h : List Call)
      → AreReadable Readable files
      → add_files files env h ≡ (returns tt, adding files h)
  unfolding add_files running
  add_files-run [] h k = refl
  add_files-run ((name, path) ∷ files) h (r, k) =
      let opened = w.opened path r in
      let shown = w.shown path r in
      let added = add_file-run name path r in
      let rest = (λ (g : List Call). add_files-run files g k) in simp (opened, shown, added, rest)

  module _ (closes : Closes env) where
    create_encrypted_secret-run :
        (credential : String) (files : List (String × String)) (password : String) (h : List Call)
        → AreReadable Readable files
        → create_encrypted_secret credential files password env h ≡ (
          returns tt,
          close_file credential
              ∷ armor_close
              ∷ pgp_close
              ∷ tar_close
              ∷ tar_flush
              ∷ adding files (
                  pgp_open password
                  ∷ armor_open
                  ∷ chmod credential 0o600
                  ∷ create_file credential
                  ∷ h),
        )
    unfolding create_encrypted_secret new_writer flush close_writer running
    create_encrypted_secret-run credential files password h k =
        let added = (λ (g : List Call). add_files-run files g k) in
        simp (
          w.created, w.owned, w.armored, w.encrypted, w.flushed, added, closes.tar_closed,
          closes.pgp_closed,
        )

    module _ (content : String → String) where
      begun-adding :
          (files : List (String × String)) (h : List Call)
          → begun content (adding files h) ≡ begun content h ++ entries_of content w.info files
      begun-adding [] h = sym (append-nil (begun content h))
      begun-adding ((name, path) ∷ files) h =
          begun-adding files _ ∙ append_assoc (begun content h) _ (entries_of content w.info files)

      pub written-create_encrypted_secret :
          (credential : String) (files : List (String × String)) (password : String) (h : List Call)
          → AreReadable Readable files
          → written content (create_encrypted_secret credential files password env h).1
            ≡ entries_of content w.info files
      written-create_encrypted_secret credential files password h k =
          ap (λ ran. written content ran.1)
            (create_encrypted_secret-run credential files password h k)
          ∙ begun-adding files
              (pgp_open password ∷ armor_open ∷ chmod credential 0o600 ∷ create_file credential ∷ h)
