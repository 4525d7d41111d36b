-- ===== src/Carbonio/Ldap/Connection.antt =====
-- The calls and the ends of the LDAP operations.
use service_discover.Common.{ℕ, String, Bool, true, false, Option, none, some, List, [], ◌∷◌}
use service_discover.Errors.{Error}
use service_discover.World.{
  Call, Entry, Change, ldap_dial, ldap_bind, ldap_search, ldap_modify, ldap_close,
}
use service_discover.Prog.{Prog, ask, pure, result, ignore, ◌>>=◌}
use service_discover.Prog.Emits.{
  Emits, emits_rules, Emits-either, Emits-pure, Emits-bind, Emits-ask, Emits-fail, Emits-lift,
  Emits-deferring,
}
use service_discover.Prog.Ends.{
  Ends, Any, Ends-ask, Ends-bind, Ends-fail, Ends-pure, Ends-check, Ends-on_error, Ends-either,
  Ends-deferring,
}
use service_discover.Carbonio.Ldap.{
  LdapCredentials, Operation, dial_first, connect, check_server_availability, modify_found,
  modify_enabled_services, query_all_servers, upload_binary, Base64, hostnames, urls_for, dial_any,
  connection_of,
}

-- The calls of LDAP.
abbrev pub IsLdap : Call → Type 0
IsLdap (ldap_dial _) = Unit
IsLdap (ldap_bind _ _ _) = Unit
IsLdap (ldap_search _ _ _ _) = Unit
IsLdap (ldap_modify _ _ _) = Unit
IsLdap (ldap_close _) = Unit
IsLdap _ = ⊥

-- What holds of every LDAP call holds of all that the operations call.
module _ {P : Call → Type 0} (ldap : (c : Call) → IsLdap c → P c) where
  dial_first-Emits : (urls : List String) (last : Option Error) → Emits P (dial_first urls last)
  unfolding dial_first
  dial_first-Emits [] last = Emits-fail _
  dial_first-Emits (url ∷ urls) last =
      Emits-bind (ask (ldap_dial url)) _ (Emits-ask (ldap_dial url) (ldap (ldap_dial url) tt)) λ r.
        Emits-either (connection_of url r) pure _ Emits-pure (λ e. dial_first-Emits urls (some e))

  dial_any-Emits : (urls : List String) → Emits P (dial_any urls)
  dial_any-Emits [] = Emits-fail _
  dial_any-Emits (url ∷ urls) = dial_first-Emits (url ∷ urls) none

  bind-Emits : (c : ℕ) (u p : String) → Emits {E = Error} P (ask (ldap_bind c u p))
  bind-Emits c u p = Emits-ask (ldap_bind c u p) (ldap (ldap_bind c u p) tt)

  search-Emits :
      (c : ℕ) (b f : String) (a : List String) → Emits {E = Error} P (ask (ldap_search c b f a))
  search-Emits c b f a = Emits-ask (ldap_search c b f a) (ldap (ldap_search c b f a) tt)

  modify-Emits : (c : ℕ) (d : String) (x : Change) → Emits {E = Error} P (ask (ldap_modify c d x))
  modify-Emits c d x = Emits-ask (ldap_modify c d x) (ldap (ldap_modify c d x) tt)

  close-Emits : (c : ℕ) → Emits {E = Error} P (ask (ldap_close c))
  close-Emits c = Emits-ask (ldap_close c) (ldap (ldap_close c) tt)

  close-Ldap : (c : ℕ) → P (ldap_close c)
  close-Ldap c = ldap (ldap_close c) tt

  connect-Emits : (c : LdapCredentials) (write : Bool) → Emits P (connect c write)
  unfolding connect
  connect-Emits c write = search (emits_rules, dial_any-Emits, bind-Emits, close-Emits) depth 12

  -- Every operation of the handler makes only LDAP calls.
  pub check_server_availability-Emits :
      (c : LdapCredentials) (write : Bool) → Emits P (check_server_availability c write)
  unfolding check_server_availability
  check_server_availability-Emits c write =
      search (emits_rules, connect-Emits, close-Emits) depth 12

  modify_found-Emits :
      (n : ℕ) (server service : String) (change : Operation) (es : List Entry)
      → Emits P (modify_found n server service change es)
  unfolding modify_found
  modify_found-Emits n server service change [] = search emits_rules
  modify_found-Emits n server service change (e ∷ es) = search (emits_rules, modify-Emits) depth 12

  pub modify_enabled_services-Emits :
      (c : LdapCredentials) (server service : String) (change : Operation)
      → Emits P (modify_enabled_services c server service change)
  unfolding modify_enabled_services
  modify_enabled_services-Emits c server service change =
      search (emits_rules, connect-Emits, search-Emits, modify_found-Emits, close-Ldap) depth 12

  pub query_all_servers-Emits :
      (c : LdapCredentials) (service : String) → Emits P (query_all_servers c service)
  unfolding query_all_servers
  query_all_servers-Emits c service =
      search (emits_rules, connect-Emits, search-Emits, close-Ldap) depth 12

  pub upload_binary-Emits :
      (base64 : Base64) (c : LdapCredentials) (reader : Prog Error String) (dn attribute : String)
      → Emits P reader
      → Emits P (upload_binary base64 c reader dn attribute)
  unfolding upload_binary
  upload_binary-Emits base64 c reader dn attribute k = Emits-bind _ _ (connect-Emits c true) λ n.
      Emits-deferring _ (ldap_close n) (close-Ldap n)
        (Emits-bind _ _ k λ content. Emits-bind _ _ (modify-Emits n dn _) λ r. Emits-lift _)

-- No operation panics, whatever the directory answers; an error can be any.
dial_first-Ends : (urls : List String) (last : Option Error) → Ends Any Any (dial_first urls last)
unfolding dial_first
dial_first-Ends [] last = Ends-fail _ tt
dial_first-Ends (url ∷ urls) last =
    Ends-bind (ask (ldap_dial url)) _ (Ends-ask (ldap_dial url)) λ r _.
      Ends-either (connection_of url r) pure _ (λ n. Ends-pure n tt)
        (λ e. dial_first-Ends urls (some e))

dial_any-Ends : (urls : List String) → Ends Any Any (dial_any urls)
dial_any-Ends [] = Ends-fail _ tt
dial_any-Ends (url ∷ urls) = dial_first-Ends (url ∷ urls) none

bind-Ends : (c : ℕ) (u p : String) → Ends {E = Error} Any Any (ask (ldap_bind c u p) >>= result)
bind-Ends c u p = Ends-check (ask (ldap_bind c u p)) (Ends-ask (ldap_bind c u p)) (λ e. tt)

close-Ends : (c : ℕ) → Ends {E = Error} Any Any (ignore (ask (ldap_close c)))
close-Ends c = Ends-bind (ask (ldap_close c)) _ (Ends-ask (ldap_close c)) (λ r _. Ends-pure tt tt)

search-Ends :
    (c : ℕ) (b f : String) (a : List String)
    → Ends {E = Error} Any Any (ask (ldap_search c b f a) >>= result)
search-Ends c b f a =
    Ends-check (ask (ldap_search c b f a)) (Ends-ask (ldap_search c b f a)) (λ e. tt)

connect-Ends : (c : LdapCredentials) (write : Bool) → Ends Any Any (connect c write)
unfolding connect
connect-Ends c write =
    Ends-bind (dial_any (urls_for c write)) _ (dial_any-Ends (urls_for c write)) λ n _.
      Ends-bind _ _
        (Ends-on_error _ _ (bind-Ends n c.username c.password)
          λ e _. Ends-bind _ _ (close-Ends n) (λ _ _. Ends-fail e tt))
        λ _ _. Ends-pure n tt

pub query_all_servers-Ends :
    (c : LdapCredentials) (service : String) → Ends Any Any (query_all_servers c service)
unfolding query_all_servers
query_all_servers-Ends c service = Ends-bind _ _ (connect-Ends c false) λ n _.
    Ends-deferring _ (ldap_close n)
      (Ends-bind _ _ (search-Ends n _ _ _) (λ es _. Ends-pure (hostnames es) tt))
