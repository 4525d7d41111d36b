-- ===== src/Carbonio/LocalConfig.antt =====
-- pkg/carbonio/localconfig.go. `parse_xml` is `xml.Unmarshal` into the list of keys.
pub mod Lookup
use service_discover.Common.{
  String, ◌<>◌, Bool, true, false, Option, none, some, List, [], ◌∷◌, if◌then◌else◌,
}
use service_discover.Common.Dict.{lookup, insert}
use service_discover.Text.{trim_space, split, trim}
use service_discover.Errors.{
  Error, message, sentinel, around, detail, parse_failed, missing_field, Result, ok, err,
}
use service_discover.World.{read_file}
use service_discover.Prog.{
  Prog, Outcome, returns, panics, result, ask, check, pure, fail, map_error, ◌>>=◌,
}

abbrev pub ldap_master_url : String
ldap_master_url = "ldap_master_url"

abbrev pub ldap_url : String
ldap_url = "ldap_url"

abbrev pub ldap_user_dn : String
ldap_user_dn = "zimbra_ldap_userdn"

abbrev pub ldap_password : String
ldap_password = "zimbra_ldap_password"

abbrev pub server_hostname : String
server_hostname = "zimbra_server_hostname"

abbrev pub local_config_path : String
local_config_path = "/opt/zextras/conf/localconfig.xml"

-- `rawKey`
pub record RawKey : Type 0 where
  pub text : String
  pub name : String
  pub value : String

-- `LocalConfigEntry`
pub record LocalConfigEntry : Type 0 where
  pub text : String
  pub value : String

-- `indexedLocalConfig`
abbrev pub LocalConfig : Type 0
LocalConfig = List (String × LocalConfigEntry)

-- The loop that fills the index: a later key of the same name replaces an earlier one.
unfoldable pub index_keys : List RawKey → LocalConfig → LocalConfig
index_keys [] index = index
index_keys (n ∷ keys) index =
    index_keys keys (insert n.name (record { text = trim_space n.text; value = n.value }) index)

abbrev pub required_fields : List String
required_fields = ldap_master_url ∷ ldap_url ∷ ldap_user_dn ∷ ldap_password ∷ server_hostname ∷ []

abbrev pub missing_error : String → Error
missing_error field =
    around "carbonio is not correctly initialized, please run carbonio-bootstrap ("
      (sentinel missing_field) (": '" <> (field <> "')"))

-- The loop over the required fields.
unfoldable pub check_required : List String → LocalConfig → Result LocalConfig
check_required [] index = ok index
check_required (field ∷ fields) index = elim (lookup field index) [
  | none ↦ err (missing_error field)
  | some _ ↦ check_required fields index
]

-- `l.localConfigIndex[key]` is a nil pointer on a missing key, and its field panics.
abbrev nil_pointer : {A : Type 0} → Outcome Error A
nil_pointer = panics "runtime error: invalid memory address or nil pointer dereference"

unfoldable pub value : LocalConfig → String → Outcome Error String
value l key = elim (lookup key l) [ none ↦ nil_pointer | some e ↦ returns e.value ]

unfoldable pub values : LocalConfig → String → Outcome Error (List String)
values l key = elim (lookup key l) [
  | none ↦ nil_pointer
  | some e ↦ returns (split (trim e.value b' ') b' ')
]

unfoldable pub text : LocalConfig → String → Outcome Error String
text l key = elim (lookup key l) [ none ↦ nil_pointer | some e ↦ returns e.text ]

module _ (parse_xml : String → Result (List RawKey)) where
  -- `loadLocalConfig`
  unfoldable pub load_raw : String → Prog Error (List RawKey)
  load_raw path = do
    bytes ← map_error (check (ask (read_file path))) (λ _. detail (sentinel parse_failed) path)
    result (parse_xml bytes)

  -- `LoadLocalConfig`
  unfoldable pub load_local_config : String → Prog Error LocalConfig
  unfolding load_raw
  load_local_config path = do
    raw ← load_raw path
    result (check_required required_fields (index_keys raw []))
