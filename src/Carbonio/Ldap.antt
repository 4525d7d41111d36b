-- ===== src/Carbonio/Ldap.antt =====
-- pkg/carbonio/ldap.go: the connections, and `LdapHandler`, the interface that the commands use,
-- with its implementation `ldap_handler`.
pub mod Connection
pub mod Services
use service_discover.Common.{
  ℕ, String, ◌<>◌, Bool, true, false, Option, none, some, List, [], ◌∷◌, ◌++◌, ◌is◌, if◌then◌else◌,
  contains, length,
}
use service_discover.Text.{itoa}
use service_discover.Errors.{
  Error, Result, ok, err, sentinel, around, detail, both, unexpected_count, no_urls, connection_nil,
  connection_failed, server_not_found,
}
use service_discover.World.{
  Entry, Attribute, Change, add_values, delete_values, replace_values, ldap_dial, ldap_bind,
  ldap_search, ldap_modify, ldap_close,
}
use service_discover.Prog.{
  Prog, Outcome, returns, result, lift, ask, check, pure, fail, panic, on_error, ignore, deferring,
  either, ◌>>=◌, ◌>>◌,
}
use service_discover.Carbonio.LocalConfig.{
  LocalConfig, value, values, ldap_master_url, ldap_url, ldap_user_dn, ldap_password,
}

abbrev pub server_base_dn : String
server_base_dn = "cn=servers,cn=zimbra"

abbrev pub config_base_dn : String
config_base_dn = "cn=config,cn=zimbra"

abbrev pub service_name : String
service_name = "service-discover"

abbrev pub attr_service_enabled : String
attr_service_enabled = "zimbraServiceEnabled"

abbrev pub attr_service_hostname : String
attr_service_hostname = "zimbraServiceHostname"

abbrev pub attr_credentials : String
attr_credentials = "carbonioMeshCredentials"

pub record LdapHandler : Type 0 where
  pub add_service : (server service : String) → Prog Error (Unit {0})
  pub remove_service : (server service : String) → Prog Error (Unit {0})
  pub query_all_servers : (service : String) → Prog Error (List String)
  pub check_availability : (write : Bool) → Prog Error (Unit {0})
  -- the reader is the call that reads it
  pub upload_binary : (reader : Prog Error String) → (dn attribute : String) → Prog Error (Unit {0})
  pub download_binary : (dn attribute : String) → Prog Error String

-- `ldapCredentials`
pub record LdapCredentials : Type 0 where
  pub master_urls : List String
  pub replica_urls : List String
  pub username : String
  pub password : String

-- `readLdapCredentials`
unfoldable pub read_credentials : LocalConfig → Prog Error LdapCredentials
read_credentials l = do
  masters ← lift (values l ldap_master_url)
  replicas ← lift (values l ldap_url)
  user ← lift (value l ldap_user_dn)
  pass ← lift (value l ldap_password)
  pure (record { master_urls = masters; replica_urls = replicas; username = user; password = pass })

-- `entry.GetAttributeValues` of the go-ldap library: the values of the first attribute of the name.
unfoldable pub attribute_values : List Attribute → String → List String
attribute_values [] name = []
attribute_values (a ∷ rest) name = if a.name is name then a.values else attribute_values rest name

abbrev pub first_or_empty : List String → String
first_or_empty [] = ""
first_or_empty (v ∷ _) = v

-- `entry.GetAttributeValue`
unfoldable pub attribute_value : Entry → String → String
unfolding attribute_values
attribute_value e name = first_or_empty (attribute_values e.attributes name)

-- The URLs that `connect` tries, in order: for reading, the masters before the replicas.
unfoldable pub urls_for : LdapCredentials → (write_access : Bool) → List String
urls_for c write_access = if write_access then c.master_urls else c.master_urls ++ c.replica_urls

abbrev pub connection_error : Option Error → Error
connection_error none = sentinel connection_failed
connection_error (some e) = both (sentinel connection_failed) e

abbrev pub connection_of : String → Result (Option ℕ) → Result ℕ
connection_of url (ok (some connection)) = ok connection
connection_of url (ok none) = err (around "" (sentinel connection_nil) (" for " <> url))
connection_of url (err e) = err e

-- The loop of `connect`, with the last error, and the test behind it.
unfoldable pub dial_first : List String → Option Error → Prog Error ℕ
dial_first [] last = fail (connection_error last)
dial_first (url ∷ urls) last = do
  dialled ← ask (ldap_dial url)
  either (connection_of url dialled) pure (λ e. dial_first urls (some e))

abbrev pub dial_any : List String → Prog Error ℕ
dial_any [] = fail (sentinel no_urls)
dial_any (url ∷ urls) = dial_first (url ∷ urls) none

-- `connect`: a connection that cannot be bound is closed.
unfoldable pub connect : LdapCredentials → (write_access : Bool) → Prog Error ℕ
unfolding dial_first urls_for
connect c write_access = do
  connection ← dial_any (urls_for c write_access)
  on_error (check (ask (ldap_bind connection c.username c.password)))
      (λ e. do ignore (ask (ldap_close connection)); fail e)
  pure connection

-- `CheckServerAvailability`
unfoldable pub check_server_availability : LdapCredentials → (write : Bool) → Prog Error (Unit {0})
check_server_availability c write = do
  connection ← connect c write
  ignore (ask (ldap_close connection))

pub data Operation : Type 0 where
  change_add change_remove : Operation

abbrev pub change_of : Operation → String → Change
change_of change_add service = add_values attr_service_enabled (service ∷ [])
change_of change_remove service = delete_values attr_service_enabled (service ∷ [])

-- The two tests for a change that is already there.
unfoldable pub is_done : Operation → (exists : Bool) → Bool
is_done change_add exists = exists
is_done change_remove exists = if exists then false else true

-- What `modifyEnabledServices` does with the entries that it found.
unfoldable pub modify_found :
    ℕ → (server service : String) → Operation → List Entry → Prog Error (Unit {0})
unfolding is_done contains attribute_values
modify_found connection server service change [] = fail (detail (sentinel server_not_found) server)
modify_found connection server service change (e ∷ _) =
    if is_done change (contains (attribute_values e.attributes attr_service_enabled) service)
    then pure tt
    else check (ask (ldap_modify connection e.dn (change_of change service)))

-- `modifyEnabledServices`
unfoldable pub modify_enabled_services :
    LdapCredentials → (server service : String) → Operation → Prog Error (Unit {0})
modify_enabled_services c server service change = do
  connection ← connect c true
  deferring
      (do
        entries ← check (
            ask (
              ldap_search connection server_base_dn
                ("(" <> (attr_service_hostname <> ("=" <> (server <> ")"))))
                ("dn" ∷ attr_service_enabled ∷ [])))
        modify_found connection server service change entries)
      (ldap_close connection)

-- `AddService` and `RemoveService`
unfoldable pub add_service : LdapCredentials → (server service : String) → Prog Error (Unit {0})
add_service c server service = modify_enabled_services c server service change_add

unfoldable pub remove_service : LdapCredentials → (server service : String) → Prog Error (Unit {0})
remove_service c server service = modify_enabled_services c server service change_remove

-- The loop over the entries of `QueryAllServersWithService`.
unfoldable pub hostnames : List Entry → List String
unfolding attribute_value
hostnames [] = []
hostnames (e ∷ entries) = attribute_value e attr_service_hostname ∷ hostnames entries

-- `QueryAllServersWithService`
unfoldable pub query_all_servers : LdapCredentials → (service : String) → Prog Error (List String)
query_all_servers c service = do
  connection ← connect c false
  deferring
      (do
        entries ← check (
            ask (
              ldap_search connection server_base_dn
                ("(" <> (attr_service_enabled <> ("=" <> (service <> ")"))))
                (attr_service_enabled ∷ attr_service_hostname ∷ [])))
        pure (hostnames entries))
      (ldap_close connection)

-- `base64.StdEncoding`
pub record Base64 : Type 0 where
  pub encode : String → String
  pub decode : String → Result String

module _ (base64 : Base64) where
  -- `UploadBinary`: the content is read behind the connection.
  unfoldable pub upload_binary :
      LdapCredentials → Prog Error String → (dn attribute : String) → Prog Error (Unit {0})
  upload_binary c reader dn attribute = do
    connection ← connect c true
    deferring
        (do
          content ← reader
          check (
              ask (
                ldap_modify connection dn (replace_values attribute (base64.encode content ∷ [])))))
        (ldap_close connection)

  -- The test on the number of entries, and the decoding, of `DownloadBinary`.
  unfoldable pub decode_only : String → List Entry → Result String
  unfolding attribute_value
  decode_only attribute (e ∷ []) = base64.decode (attribute_value e attribute)
  decode_only attribute [] =
      err (detail (sentinel unexpected_count) ("expected 1 but got " <> itoa 0))
  decode_only attribute (e ∷ f ∷ entries) = err (
      detail (sentinel unexpected_count) ("expected 1 but got " <> itoa (length (e ∷ f ∷ entries))))

  -- `DownloadBinary`
  unfoldable pub download_binary : LdapCredentials → (dn attribute : String) → Prog Error String
  download_binary c dn attribute = do
    connection ← connect c false
    deferring
        (do
          entries ←
              check (ask (ldap_search connection dn ("(" <> (attribute <> "=*)")) (attribute ∷ [])))
          result (decode_only attribute entries))
        (ldap_close connection)

  -- `CreateNewHandler`: the methods of `ldapContext`.
  abbrev pub ldap_context : LdapCredentials → LdapHandler
  ldap_context c = record {
    add_service = add_service c;
    remove_service = remove_service c;
    query_all_servers = query_all_servers c;
    check_availability = check_server_availability c;
    upload_binary = upload_binary c;
    download_binary = download_binary c;
  }

  unfoldable pub create_new_handler : LocalConfig → Prog Error LdapHandler
  create_new_handler l = do credentials ← read_credentials l; pure (ldap_context credentials)
