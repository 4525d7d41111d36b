-- ===== src/Server/Archive/Closing.antt =====
-- cmd/server/command/setup/firstsetup.go: `createEncryptedSecret` drops the errors of `Close`.
use service_discover.Common.{ℕ, All, String, List, [], ◌∷◌, ◌≡◌, refl}
use service_discover.Errors.{ok}
use service_discover.World.{
  Call, Env, FileInfo, Header, create_file, chmod, armor_open, pgp_open, open_file, file_info,
  tar_header, tar_copy, tar_flush,
}
use service_discover.Prog.{returns, running}
use service_discover.Encrypter.Writer.{new_writer, add_file, flush}
use service_discover.Server.Archive.{add_files, create_encrypted_secret}

-- The files of `Readable` can be read and the archive written; nothing is said of other files, and
-- of what the closing of the archive answers.
pub record Writes (env : Env) (Readable : String → Type 0) : Type 0 where
  pub created : (h : List Call) (path : String) → env.reply h (create_file path) ≡ ok tt
  pub owned : (h : List Call) (path : String) (mode : ℕ) → env.reply h (chmod path mode) ≡ ok tt
  pub armored : (h : List Call) → env.reply h armor_open ≡ ok tt
  pub encrypted : (h : List Call) (password : String) → env.reply h (pgp_open password) ≡ ok tt
  pub info : (path : String) → FileInfo
  pub opened :
      (path : String) → Readable path → (h : List Call) → env.reply h (open_file path) ≡ ok tt
  pub shown :
      (path : String)
      → Readable path
      → (h : List Call) → env.reply h (file_info path) ≡ ok (info path)
  pub copied :
      (path : String) → Readable path → (h : List Call) → env.reply h (tar_copy path) ≡ ok tt
  pub begun : (h : List Call) (header : Header) → env.reply h (tar_header header) ≡ ok tt
  pub flushed : (h : List Call) → env.reply h tar_flush ≡ ok tt

-- Every file to be added is one of those.
abbrev pub AreReadable : (Readable : String → Type 0) → List (String × String) → Type 0
AreReadable Readable files = All (λ file. Readable file.1) files

module _ (env : Env) (Readable : String → Type 0) (w : Writes env Readable) where
  module _ (name path : String) (r : Readable path) where
    add_file-returns : (h : List Call) → (add_file path (w.info path) name "/" env h).0 ≡ returns tt
    unfolding add_file running
    add_file-returns h = let copied = w.copied path r in simp (w.begun, copied)

  add_files-returns :
      (files : List (String × String)) (h : List Call)
      → AreReadable Readable files
      → (add_files files env h).0 ≡ returns tt
  unfolding add_files running
  add_files-returns [] h k = refl
  add_files-returns ((name, path) ∷ files) h (r, k) =
      let opened = w.opened path r in
      let shown = w.shown path r in
      let added = add_file-returns name path r in
      let rest = (λ (g : List Call). add_files-returns files g k) in
      simp (opened, shown, added, rest)

  writer-returns : (password : String) (h : List Call) → (new_writer password env h).0 ≡ returns tt
  unfolding new_writer running
  writer-returns password h = simp (w.armored, w.encrypted)

  flush-returns : (h : List Call) → (flush env h).0 ≡ returns tt
  unfolding flush running
  flush-returns h = simp (w.flushed)

  -- `createEncryptedSecret` returns without an error for every list of files that can be opened and
  -- read, if the credential can be made and the parts of the archive can be written, whatever the
  -- closing of the tarball, of the encryption and of the armor answer: an archive that lacks its
  -- end, because one of them failed, is not told from a whole one.
  pub create_encrypted_secret-returns :
      (credential : String) (files : List (String × String)) (password : String) (h : List Call)
      → AreReadable Readable files
      → (create_encrypted_secret credential files password env h).0 ≡ returns tt
  unfolding create_encrypted_secret running
  create_encrypted_secret-returns credential files password h k =
      let added = (λ (g : List Call). add_files-returns files g k) in
      simp (w.created, w.owned, writer-returns, added, flush-returns)
