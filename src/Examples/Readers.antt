-- ===== src/Examples/Readers.antt =====
-- The theorems on archives and on localconfig.xml at concrete inputs.
use service_discover.Common.{
  ◌≤◌, String, none, some, List, [], ◌∷◌, ◌<>◌, ◌≡◌, ◌≢◌, refl, sym, subst, ap, ◌↔◌, is-cases, inl,
  inr, arith, leb, if◌then◌else◌,
}
use service_discover.Common.Dict.{lookup, insert}
use service_discover.Text.{trim_space}
use service_discover.Errors.{message, ok}
use service_discover.World.{entry}
use service_discover.Prog.{returns, fails, panics, running}
use service_discover.Encrypter.Reader.{read_files, missing_text}
use service_discover.Encrypter.Reader.Array.{count, one_if}
use service_discover.Encrypter.Reader.Invariant.{archive, HasDistinctNames, IsDistinct}
use service_discover.Encrypter.Reader.Search.{read_files-found, read_files-missing}
use service_discover.Encrypter.Reader.Duplicates.{read_files-duplicate}
use service_discover.Carbonio.LocalConfig.{
  LocalConfig, RawKey, index_keys, value, load_raw, check_required, load_local_config,
  local_config_path, server_hostname,
}
use service_discover.Carbonio.LocalConfig.Lookup.{
  last_key, value-load_local_config, value-index_keys,
}
use service_discover.Examples.{quiet, parse_five}

abbrev wanted : List String
wanted = "a" ∷ []

abbrev entries : List (String × String)
entries = ("x", "1") ∷ ("a", "2") ∷ []

entries-Distinct : HasDistinctNames entries
unfolding lookup
entries-Distinct = (refl, (refl, tt))

wanted-Distinct : IsDistinct wanted
wanted-Distinct f = ground arith

a_there : lookup "a" entries ≢ none
unfolding lookup
a_there e = ground arith

wanted_there : (f : String) → 1 ≤ count f wanted → lookup f entries ≢ none
wanted_there f h = elim (is-cases f "a") [
  | inl (e, t) ↦ subst (λ g. lookup g entries ≢ none) (sym e) a_there
  | inr (n, t) ↦
      let none_counted : one_if f "a" ≡ 0 = ap (λ b. if b then 1 else 0) t in
      absurd (omega (arith, none_counted))
]

read_files-found_example :
    (result : List (String × String)) × (read_files (archive entries) wanted ≡ returns result)
    × ((f : String) → lookup f result ≡ (if leb 1 (count f wanted) then lookup f entries else none))
read_files-found_example =
    read_files-found wanted entries entries-Distinct wanted-Distinct wanted_there

abbrev absent : List String
absent = "b" ∷ []

absent-Distinct : IsDistinct absent
absent-Distinct f = ground arith

b_missing : lookup "b" entries ≡ none
unfolding lookup
b_missing = refl

read_files-missing_example :
    (missing : List String) × (read_files (archive entries) absent
      ≡ fails (message ("not all files were found in the archive:" <> missing_text missing)))
    × ((g : String) → 1 ≤ count g missing ↔ (1 ≤ count g absent) × (lookup g entries ≡ none))
read_files-missing_example =
    read_files-missing absent entries "b" entries-Distinct absent-Distinct (omega arith) b_missing

nothing_between : lookup {V = String} "a" [] ≡ none
unfolding lookup
nothing_between = refl

other_ahead : lookup {V = String} "a" (("b", "0") ∷ []) ≡ none
unfolding lookup
other_ahead = refl

read_files-duplicate_example :
    read_files (entry "b" (ok "0") ∷ entry "a" (ok "1") ∷ entry "a" (ok "2") ∷ []) ("a" ∷ [])
    ≡ panics "runtime error: index out of range"
read_files-duplicate_example =
    read_files-duplicate "a" "1" "2" (("b", "0") ∷ []) [] [] other_ahead nothing_between

abbrev config : LocalConfig
config =
    ("ldap_master_url", record { text = ""; value = "ldap://a" })
    ∷ ("ldap_url", record { text = ""; value = "ldap://b" })
    ∷ ("zimbra_ldap_userdn", record { text = ""; value = "u" })
    ∷ ("zimbra_ldap_password", record { text = ""; value = "p" })
    ∷ ("zimbra_server_hostname", record { text = ""; value = "host" })
    ∷ []

loaded : (load_local_config parse_five local_config_path quiet []).0 ≡ returns config
unfolding load_local_config running load_raw check_required index_keys insert lookup trim_space
loaded = refl

value-load_local_config_example : (v : String) × (value config server_hostname ≡ returns v)
value-load_local_config_example =
    value-load_local_config parse_five local_config_path quiet [] config server_hostname loaded
      (inr (inr (inr (inr (inl refl)))))

abbrev two_keys : List RawKey
two_keys =
    record { name = "k"; value = "old"; text = "" }
    ∷ record { name = "k"; value = "new"; text = "" }
    ∷ []

last_is_new : last_key two_keys "k" none ≡ some (record { text = ""; value = "new" })
unfolding trim_space
last_is_new = refl

value-index_keys_example : value (index_keys two_keys []) "k" ≡ returns "new"
value-index_keys_example =
    value-index_keys two_keys "k" (record { text = ""; value = "new" }) last_is_new
