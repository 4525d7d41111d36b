-- ===== src/Examples/Servers.antt =====
-- The theorems on the server's setup and on the interfaces at concrete inputs.
use service_discover.Common.{
  String, ◌is◌, if◌then◌else◌, true, false, List, [], ◌∷◌, ◌≡◌, inl, inr, refl,
}
use mathlib.Core.List.{Perm}
use service_discover.Errors.{ok, err, message}
use service_discover.Text.{equal_fold}
use service_discover.World.{Call, Answer, Env, net_interfaces, addr_resolver, tar_close}
use service_discover.Prog.{returns, fails}
use service_discover.Formatter.{plain}
use service_discover.Agent.Setup
use service_discover.Carbonio.Ldap.{LdapCredentials, ldap_context}
use service_discover.Command.Network.{non_loopback_interfaces, check_valid_binding_address}
use service_discover.Command.Network.Binding.{
  is_on_network, check_valid_binding_address-eq-is_on_network,
}
use service_discover.Command.Network.Loopback.{AtMostOne, outer, non_loopback_interfaces-perm-outer}
use service_discover.Steps.Temps.{IsClean}
use service_discover.Server.{Settings}
use service_discover.Server.Run.{run_server, run_server_wizard}
use service_discover.Server.Terminal.{Restores, setups-Restores}
use service_discover.Server.Archive.{create_encrypted_secret}
use service_discover.Server.Archive.Closing.{Writes, create_encrypted_secret-returns}
use service_discover.Server.FirstSetup.{store_credentials}
use service_discover.Server.FirstSetup.Removal.{store_credentials-IsClean}
use service_discover.Examples.{shown_file, quiet, answer, plain_base64, no_json, parse_five}
use service_discover.Prog.Files.{FileState, absent}
use service_discover.Examples.Setups.{settings}

abbrev pub server_settings : Settings
server_settings = record {
  consul_home = "/var/lib/service-discover";
  local_config_path = "/opt/zextras/conf/localconfig.xml";
  consul_data = "/var/lib/service-discover/data";
  consul_file_config = "/etc/zextras/service-discover/main.json";
  cluster_credential = "/etc/zextras/service-discover/cluster-credentials.tar.gpg";
  mutable_config_file = "/etc/zextras/service-discover/config.json";
  password = "p";
  bind_address = "10.0.0.1";
  first_instance = true;
}

abbrev pub ldap : LdapCredentials
ldap = record { master_urls = "ldap://a" ∷ []; replica_urls = []; username = "u"; password = "p" }

abbrev empty_disk : String → FileState
empty_disk path = absent

store_credentials-IsClean_example :
    IsClean quiet empty_disk
      (store_credentials
        (λ files. files)
        server_settings
        (ldap_context plain_base64 ldap)
        "{}"
        "key"
        "p"
        false
        quiet
        []).1
store_credentials-IsClean_example =
    store_credentials-IsClean plain_base64 ldap (λ files. files) server_settings quiet "{}" "key"
      "p" false empty_disk [] (λ h path. inl refl) tt

-- The tarball cannot be closed.
abbrev reply_full : (c : Call) → Answer c
reply_full tar_close = err (message "no space left on device")
reply_full c = answer c

abbrev full : Env
full = record { reply = λ h c. reply_full c }

abbrev full_writes : Writes full (λ path. Unit)
full_writes = record {
  created = λ h path. refl;
  owned = λ h path mode. refl;
  armored = λ h. refl;
  encrypted = λ h password. refl;
  opened = λ path r h. refl;
  info = shown_file;
  shown = λ path r h. refl;
  begun = λ h header. refl;
  copied = λ path r h. refl;
  flushed = λ h. refl;
}

abbrev archived_files : List (String × String)
archived_files = ("gossip-key", "/tmp/g") ∷ ("consul-acl-secret.json", "/tmp/a") ∷ []

create_encrypted_secret-returns_example :
    (create_encrypted_secret "/etc/x.gpg" archived_files "p" full []).0 ≡ returns tt
create_encrypted_secret-returns_example =
    create_encrypted_secret-returns full _ full_writes "/etc/x.gpg" archived_files "p" []
      (tt, (tt, tt))

setups-Restores_example :
    Restores quiet [] (
      run_server
        (λ files. files)
        no_json
        (λ s. s)
        121
        plain_base64
        parse_five
        server_settings
        plain
        quiet
        [])
    × Restores quiet [] (
        run_server_wizard
          (λ files. files)
          no_json
          (λ s. s)
          121
          plain_base64
          parse_five
          server_settings
          plain
          quiet
          [])
    × Restores quiet []
        (Setup.run no_json (λ s. s) 121 parse_five plain_base64 settings plain quiet [])
    × Restores quiet []
        (Setup.run_wizard no_json (λ s. s) 121 parse_five plain_base64 settings plain quiet [])
setups-Restores_example =
    setups-Restores (λ files. files) no_json (λ s. s) 121 plain_base64 parse_five quiet []
      server_settings settings plain

abbrev cards : List String
cards = "eth0" ∷ "lo" ∷ "wlan0" ∷ "docker0" ∷ []

abbrev reply_cards : (c : Call) → Answer c
reply_cards net_interfaces = ok cards
reply_cards c = answer c

abbrev carded : Env
carded = record { reply = λ h c. reply_cards c }

cards-AtMostOne : AtMostOne cards
unfolding equal_fold
cards-AtMostOne = inl (refl, inr (refl, (refl, (refl, tt))))

non_loopback_interfaces-perm-outer_example :
    (kept : List String) × (((non_loopback_interfaces carded []).0 ≡ returns kept)
      × Perm kept (outer cards))
non_loopback_interfaces-perm-outer_example =
    non_loopback_interfaces-perm-outer carded [] cards refl cards-AtMostOne

abbrev ca_key_path : String
ca_key_path = "var/lib/service-discover/consul-agent-ca-key.pem"

-- One address for each interface.
abbrev address_of : String → List String
address_of n = if n is "eth0" then "10.0.0.1/24" ∷ [] else "127.0.0.1/8" ∷ []

abbrev reply_addressed : (c : Call) → Answer c
reply_addressed (addr_resolver n) = ok (address_of n)
reply_addressed c = answer c

abbrev addressed : Env
addressed = record { reply = λ h c. reply_addressed c }

check_valid_binding_address-eq-is_on_network_example :
    (check_valid_binding_address ("eth0" ∷ "lo" ∷ []) "10.0.0.1" addressed []).0 ≡ (
      if is_on_network "10.0.0.1" address_of ("eth0" ∷ "lo" ∷ [])
      then returns tt
      else fails (message "invalid binding address selected"))
check_valid_binding_address-eq-is_on_network_example =
    check_valid_binding_address-eq-is_on_network "10.0.0.1" address_of addressed (λ h n. refl)
      ("eth0" ∷ "lo" ∷ []) []
