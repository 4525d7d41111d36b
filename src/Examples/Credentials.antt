-- ===== src/Examples/Credentials.antt =====
-- The theorem on the credential at a concrete input: what the import asks of a credential whose files
-- were ranged over in another order.
use service_discover.Common.{
  ◌≤◌, String, none, List, [], ◌∷◌, ◌≡◌, ◌≢◌, refl, arith, leb, if◌then◌else◌, eq_iff,
}
use mathlib.Core.List.{Permᴰ}
use service_discover.Common.Dict.{lookup}
use service_discover.Prog.{returns}
use service_discover.Encrypter.Reader.{read_files}
use service_discover.Encrypter.Reader.Array.{count}
use service_discover.Encrypter.Reader.Invariant.{archive, IsDistinct}
use service_discover.Server.Archive.{create_encrypted_secret}
use service_discover.Server.Archive.Closing.{Writes}
use service_discover.Server.Archive.Written.{Closes, written}
use service_discover.Server.FirstSetup.{files_to_compress}
use service_discover.Server.Credential.{credential, read_files-create_encrypted_secret}
use service_discover.Examples.{shown_file, quiet}
use service_discover.Examples.Servers.{server_settings}

abbrev quiet_writes : Writes quiet (λ path. Unit)
quiet_writes = record {
  created = λ h path. refl;
  owned = λ h path mode. refl;
  armored = λ h. refl;
  encrypted = λ h password. refl;
  opened = λ path r h. refl;
  info = shown_file;
  shown = λ path r h. refl;
  begun = λ h header. refl;
  copied = λ path r h. refl;
  flushed = λ h. refl;
}

abbrev quiet_closes : Closes quiet
quiet_closes = record { tar_closed = λ h. refl; pgp_closed = λ h. refl; armor_closed = λ h. refl }

-- The first two files change places.
abbrev turned : List (String × String) → List (String × String)
turned (a ∷ b ∷ files) = b ∷ a ∷ files
turned files = files

abbrev asked : List String
asked =
    "var/lib/service-discover/consul-agent-ca.pem"
    ∷ "var/lib/service-discover/consul-agent-ca-key.pem" ∷ "consul-acl-secret.json" ∷ "gossip-key"
    ∷ []

asked-Distinct : IsDistinct asked
asked-Distinct f = ground (
  arith,
  eq_iff f "var/lib/service-discover/consul-agent-ca.pem",
  eq_iff f "var/lib/service-discover/consul-agent-ca-key.pem",
  eq_iff f "consul-acl-secret.json",
  eq_iff f "gossip-key",
  eq_iff "var/lib/service-discover/consul-agent-ca.pem"
      "var/lib/service-discover/consul-agent-ca-key.pem",
  eq_iff "var/lib/service-discover/consul-agent-ca.pem" "consul-acl-secret.json",
  eq_iff "var/lib/service-discover/consul-agent-ca.pem" "gossip-key",
  eq_iff "var/lib/service-discover/consul-agent-ca-key.pem" "consul-acl-secret.json",
  eq_iff "var/lib/service-discover/consul-agent-ca-key.pem" "gossip-key",
  eq_iff "consul-acl-secret.json" "gossip-key",
)

abbrev held : List (String × String)
held = credential (λ path. path) server_settings "/tmp/g" "/tmp/a"

asked_there : (f : String) → 1 ≤ count f asked → lookup f held ≢ none
unfolding lookup
asked_there f h e = ground (
  arith,
  h,
  e,
  eq_iff f "var/lib/service-discover/consul-agent-ca.pem",
  eq_iff f "var/lib/service-discover/consul-agent-ca-key.pem",
  eq_iff f "consul-acl-secret.json",
  eq_iff f "gossip-key",
  eq_iff "var/lib/service-discover/consul-agent-ca.pem" f,
  eq_iff "var/lib/service-discover/consul-agent-ca-key.pem" f,
  eq_iff "consul-acl-secret.json" f,
  eq_iff "gossip-key" f,
)

read_files-create_encrypted_secret_example :
    let ran =
      create_encrypted_secret server_settings.cluster_credential
        (turned (files_to_compress server_settings "/tmp/g" "/tmp/a"))
        "p"
        quiet
        [] in
    (result : List (String × String)) × (read_files (archive (written (λ path. path) ran.1)) asked
      ≡ returns result)
    × ((f : String) → lookup f result ≡ (if leb 1 (count f asked) then lookup f held else none))
read_files-create_encrypted_secret_example =
    read_files-create_encrypted_secret quiet _ quiet_writes (λ path. path) server_settings "/tmp/g"
      "/tmp/a" "p" turned asked [] quiet_closes (tt, (tt, (tt, (tt, tt)))) refl
      (Permᴰ.swap refl refl) asked-Distinct asked_there
