-- ===== src/Server/Credential.antt =====
-- cmd/server/command/setup/firstsetup.go and importsetup.go: the credential that the first setup
-- writes, read as the other setups read it.
use service_discover.Common.{
  ◌≤◌, String, ◌<>◌, none, some, List, [], ◌∷◌, ◌≡◌, ◌≢◌, refl, sym, ap, ◌∙◌, subst, leb,
  if◌then◌else◌, ◌is◌, arith, eq_iff,
}
use mathlib.Core.List.{Permᴰ}
use service_discover.Common.Dict.{lookup}
use service_discover.FilePath.{join_path}
use service_discover.World.{Call, Env, FileInfo}
use service_discover.Prog.{returns}
use service_discover.Encrypter.Reader.{read_files}
use service_discover.Encrypter.Reader.Array.{count}
use service_discover.Encrypter.Reader.Invariant.{archive, HasDistinctNames, IsDistinct}
use service_discover.Encrypter.Reader.Search.{read_files-found}
use service_discover.Agent.Setup.{ca_name, ca_key_name}
use service_discover.Command.BootstrapToken.{consul_acl_bootstrap}
use service_discover.Server.{Settings}
use service_discover.Encrypter.Writer.Places.{asked_name}
use service_discover.Server.Archive.{create_encrypted_secret}
use service_discover.Server.Archive.Closing.{Writes, AreReadable}
use service_discover.Server.Archive.Written.{
  Closes, entries_of, written, written-create_encrypted_secret,
}
use service_discover.Server.FirstSetup.{files_to_compress}
use service_discover.Server.ImportSetup.{default_home}

-- The entry of one file.
abbrev entry_of :
    (content : String → String) → (info : String → FileInfo) → String × String → String × String
entry_of content info (name, path) = (join_path "." (asked_name (info path) name), content path)

-- Files in another order are entries in another order.
entries_of-perm :
    (content : String → String) (info : String → FileInfo) {xs ys : List (String × String)}
    → Permᴰ xs ys
    → Permᴰ (entries_of content info xs) (entries_of content info ys)
entries_of-perm content info Permᴰ.nil = Permᴰ.nil
entries_of-perm content info (Permᴰ.cons e p) =
    Permᴰ.cons (ap (entry_of content info) e) (entries_of-perm content info p)
entries_of-perm content info (Permᴰ.swap e f) =
    Permᴰ.swap (ap (entry_of content info) e) (ap (entry_of content info) f)
entries_of-perm content info (Permᴰ.trans p q) =
    Permᴰ.trans (entries_of-perm content info p) (entries_of-perm content info q)

-- Distinct names stay distinct in another order, and have the same contents.
record SameDict (xs ys : List (String × String)) : Type 0 where
  distinct : HasDistinctNames ys
  same : (name : String) → lookup name xs ≡ lookup name ys

swapped :
    (a b : String × String) (l : List (String × String))
    → HasDistinctNames (a ∷ b ∷ l)
    → SameDict (a ∷ b ∷ l) (b ∷ a ∷ l)
unfolding lookup
swapped a b l (n, (m, d)) = record {
  distinct = (
    ground (arith, eq_iff a.0 b.0, eq_iff b.0 a.0),
    (ground (arith, eq_iff a.0 b.0, eq_iff b.0 a.0), d),
  );
  same = λ name. ground (arith, eq_iff a.0 b.0, eq_iff b.0 a.0, eq_iff a.0 name, eq_iff b.0 name);
}

perm-SameDict :
    {xs ys : List (String × String)} → Permᴰ xs ys → HasDistinctNames xs → SameDict xs ys
unfolding lookup
perm-SameDict Permᴰ.nil d = record { distinct = tt; same = λ name. refl }
perm-SameDict (Permᴰ.cons {a = a} {b = b} {l₁ = l₁} e p) (n, d) =
    let rest = perm-SameDict p d in
    record {
      distinct = (sym (rest.same b.0) ∙ subst (λ k. lookup k.0 l₁ ≡ none) e n, rest.distinct);
      same = λ name.
          ap (λ k. if k.0 is name then some k.1 else lookup name l₁) e
          ∙ ap (λ r. if b.0 is name then some b.1 else r) (rest.same name);
    }
perm-SameDict (Permᴰ.swap {a = a} {b = b} {b' = b'} {l = l} e f) d =
    subst (λ k. SameDict (a ∷ b ∷ l) (k ∷ b' ∷ l)) f
      (subst (λ k. SameDict (a ∷ b ∷ l) (b ∷ k ∷ l)) e (swapped a b l d))
perm-SameDict (Permᴰ.trans p q) d =
    let first = perm-SameDict p d in
    let second = perm-SameDict q first.distinct in
    record { distinct = second.distinct; same = λ name. first.same name ∙ second.same name }

-- The files of the credential, under the names that they are looked for, and what they hold.
abbrev pub credential :
    (content : String → String)
    → Settings
    → (gossip_file acl_file : String) → List (String × String)
credential content s gossip_file acl_file =
    ("gossip-key", content gossip_file)
    ∷ (consul_acl_bootstrap, content acl_file)
    ∷ ("var/lib/service-discover/consul-agent-ca.pem", content (s.consul_home <> ("/" <> ca_name)))
    ∷ (
      "var/lib/service-discover/consul-agent-ca-key.pem",
      content (s.consul_home <> ("/" <> ca_key_name)),
    )
    ∷ []

module _ (content : String → String) (info : String → FileInfo) (s : Settings)
    (home : s.consul_home ≡ default_home) (gossip_file acl_file : String) where
  entries_of-files :
      entries_of content info (files_to_compress s gossip_file acl_file)
      ≡ credential content s gossip_file acl_file
  unfolding join_path
  entries_of-files = rw home refl

  credential-HasDistinctNames : HasDistinctNames (credential content s gossip_file acl_file)
  unfolding lookup
  credential-HasDistinctNames = (refl, (refl, (refl, (refl, tt))))

-- What the first setup puts into the credential, the other setups and `bootstrap-token` find in it.
-- If the home of Consul is the default one, the files can be read and each call for the archive,
-- those that close it included, is answered without an error, then whatever the order in which the
-- map of the files is ranged over, asking the archive for any of its four names, each once, gives
-- each of them with what its file held, and nothing else. An archive that is not closed has no
-- entries to find.
pub read_files-create_encrypted_secret :
    (env : Env) (Readable : String → Type 0) (w : Writes env Readable) (content : String → String)
    (s : Settings) (gossip_file acl_file password : String)
    (ranged : List (String × String) → List (String × String)) (wanted : List String)
    (h : List Call)
    → Closes env
    → AreReadable Readable (ranged (files_to_compress s gossip_file acl_file))
    → s.consul_home ≡ default_home
    → Permᴰ
        (files_to_compress s gossip_file acl_file)
        (ranged (files_to_compress s gossip_file acl_file))
    → IsDistinct wanted
    → ((f : String)
        → 1 ≤ count f wanted
        → lookup f (credential content s gossip_file acl_file) ≢ none)
    → let ran =
        create_encrypted_secret s.cluster_credential
          (ranged (files_to_compress s gossip_file acl_file))
          password
          env
          h in
      (result : List (String × String)) × (read_files (archive (written content ran.1)) wanted
        ≡ returns result)
      × ((f : String)
          → lookup f result ≡ (
              if leb 1 (count f wanted)
              then lookup f (credential content s gossip_file acl_file)
              else none))
read_files-create_encrypted_secret env Readable w content s gossip_file acl_file password ranged
      wanted h closes readable home order distinct there =
    let files = ranged (files_to_compress s gossip_file acl_file) in
    let ran = create_encrypted_secret s.cluster_credential files password env h in
    let wrote =
      written-create_encrypted_secret env Readable w closes content s.cluster_credential files
        password h readable in
    let dict =
      perm-SameDict
        (subst (λ es. Permᴰ es (entries_of content w.info files))
          (entries_of-files content w.info s home gossip_file acl_file)
          (entries_of-perm content w.info order))
        (credential-HasDistinctNames content w.info s home gossip_file acl_file) in
    let (result, read, found) =
      read_files-found wanted (entries_of content w.info files) dict.distinct distinct
        (λ f c e. there f c (dict.same f ∙ e)) in
    (
      result,
      ap (λ es. read_files (archive es) wanted) wrote ∙ read,
      λ f. found f ∙ ap (λ o. if leb 1 (count f wanted) then o else none) (sym (dict.same f)),
    )
