-- ===== src/Carbonio/Ldap/Services.antt =====
-- pkg/carbonio/ldap.go: when `AddService` and `RemoveService` change the directory.
use service_discover.Common.{
  ℕ, String, ◌<>◌, Bool, true, false, List, [], ◌∷◌, ◌++◌, ◌≡◌, ◌≢◌, ◌⊎◌, ◌∙◌, inl, inr, refl,
  contains, if◌then◌else◌, ◌is◌, arith, eq_iff,
}
use service_discover.Errors.{Error, ok}
use service_discover.World.{
  Call, Env, Entry, Change, add_values, delete_values, replace_values, ldap_search, ldap_modify,
  ldap_close,
}
use service_discover.Prog.{Outcome, returns, outcome_of, running, pure, check, ask, deferring}
use service_discover.Carbonio.Ldap.{
  LdapCredentials, Operation, change_add, change_remove, change_of, attribute_values,
  attr_service_enabled, attr_service_hostname, server_base_dn, is_done, connect, modify_found,
  modify_enabled_services,
}

-- Whether the server has the service.
abbrev pub has_service : Entry → (service : String) → Bool
has_service e service = contains (attribute_values e.attributes attr_service_enabled) service

-- Whether it shall have it behind the operation.
abbrev pub is_wanted : Operation → Bool
is_wanted change_add = true
is_wanted change_remove = false

abbrev pub same : Bool → Bool → Bool
same true b = b
same false true = false
same false false = true

-- What a modify request does to the values of its attribute, as LDAP has it.
abbrev without : (values gone : List String) → List String
without [] gone = []
without (v ∷ values) gone =
    let rest = without values gone in if contains gone v then rest else v ∷ rest

abbrev pub applied : Change → (values : List String) → List String
applied (add_values _ new) values = values ++ new
applied (delete_values _ gone) values = without values gone
applied (replace_values _ new) values = new

abbrev pub attribute_of : Change → String
attribute_of (add_values a _) = a
attribute_of (delete_values a _) = a
attribute_of (replace_values a _) = a

-- Behind the change the server has the service if it is wanted, and the other services that it had.
pub record IsWantedChange (operation : Operation) (service : String) (values : List String)
    (change : Change) : Type 0 where
  pub attribute : attribute_of change ≡ attr_service_enabled
  pub effect :
      (s : String)
      → contains (applied change values) s
        ≡ (if s is service then is_wanted operation else contains values s)

added :
    (service : String) (values : List String) (s : String)
    → contains (values ++ service ∷ []) s ≡ (if s is service then true else contains values s)
unfolding contains
added service [] s = ground (arith, eq_iff s service, eq_iff service s)
added service (v ∷ values) s =
    ground (arith, added service values s, eq_iff s service, eq_iff v s, eq_iff s v)

removed :
    (service : String) (values : List String) (s : String)
    → contains (without values (service ∷ [])) s
      ≡ (if s is service then false else contains values s)
unfolding contains
removed service [] s = ground (arith, eq_iff s service)
removed service (v ∷ values) s = ground (
  arith,
  removed service values s,
  eq_iff s service,
  eq_iff service s,
  eq_iff v s,
  eq_iff s v,
  eq_iff service v,
  eq_iff v service,
)

change_of-IsWantedChange :
    (operation : Operation) (service : String) (values : List String)
    → IsWantedChange operation service values (change_of operation service)
change_of-IsWantedChange change_add service values = record {
  attribute = refl;
  effect = added service values;
}
change_of-IsWantedChange change_remove service values = record {
  attribute = refl;
  effect = removed service values;
}

done-same : (operation : Operation) (b : Bool) → is_done operation b ≡ same (is_wanted operation) b
unfolding is_done
done-same change_add b = refl
done-same change_remove true = refl
done-same change_remove false = refl

module _ (c : LdapCredentials) (server service : String) (operation : Operation) (env : Env)
    (h connected : List Call) (n : ℕ) (found : Entry) (others : List Entry) where
  abbrev pub search_call : Call
  search_call =
      ldap_search n server_base_dn ("(" <> (attr_service_hostname <> ("=" <> (server <> ")"))))
        ("dn" ∷ attr_service_enabled ∷ [])

  abbrev modify_call : Call
  modify_call = ldap_modify n found.dn (change_of operation service)

  -- The server has what the operation wants, and nothing is changed; or it does not have it, and one
  -- change of its entry brings it about.
  abbrev pub Modified : Outcome Error (Unit {0}) × List Call → Type 0
  Modified ran =
      ((has_service found service ≡ is_wanted operation)
        × (ran ≡ (returns tt, ldap_close n ∷ search_call ∷ connected)))
      ⊎ ((change : Change) × ((has_service found service ≢ is_wanted operation)
            × IsWantedChange operation service
                (attribute_values found.attributes attr_service_enabled) change
            × (ran ≡ (
              outcome_of (env.reply (search_call ∷ connected) (ldap_modify n found.dn change)),
              ldap_close n ∷ ldap_modify n found.dn change ∷ search_call ∷ connected,
            ))))

  same-cases : (a b : Bool) → ((same a b ≡ true) × (b ≡ a)) ⊎ ((same a b ≡ false) × (b ≢ a))
  same-cases true true = inl (refl, refl)
  same-cases true false = inr (refl, λ e. cc)
  same-cases false true = inr (refl, λ e. cc)
  same-cases false false = inl (refl, refl)

  branch :
      (b : Bool)
      → deferring
          (if b then pure tt else check (ask modify_call))
          (ldap_close n)
          env
          (search_call ∷ connected)
        ≡ (if b then (returns tt, ldap_close n ∷ search_call ∷ connected) else (
          outcome_of (env.reply (search_call ∷ connected) modify_call),
          ldap_close n ∷ modify_call ∷ search_call ∷ connected,
        ))
  unfolding running
  branch true = refl
  branch false = refl

  modified_run :
      connect c true env h ≡ (returns n, connected)
      → env.reply connected search_call ≡ ok (found ∷ others)
      → modify_enabled_services c server service operation env h ≡ (
          if same (is_wanted operation) (has_service found service)
          then (returns tt, ldap_close n ∷ search_call ∷ connected)
          else (
            outcome_of (env.reply (search_call ∷ connected) modify_call),
            ldap_close n ∷ modify_call ∷ search_call ∷ connected,
          ))
  unfolding modify_enabled_services modify_found running
  modified_run e s =
      rw (e, s, done-same) (branch (same (is_wanted operation) (has_service found service)))

  -- Once connected for writing, and with an entry for the server, `AddService` and `RemoveService`
  -- change nothing and succeed if the server has the service or lacks it as they want. Otherwise they
  -- make one change, of that entry: it makes the server have the service for `AddService` and lack
  -- it for `RemoveService`, leaves its other services, and its answer is their result. The connection
  -- is closed at the end.
  pub modify_enabled_services-Modified :
      connect c true env h ≡ (returns n, connected)
      → env.reply connected search_call ≡ ok (found ∷ others)
      → Modified (modify_enabled_services c server service operation env h)
  modify_enabled_services-Modified e s =
      elim (same-cases (is_wanted operation) (has_service found service)) [
        | inl (t, b) ↦ inl (b, modified_run e s ∙ rw t refl)
        | inr (t, b) ↦ inr (
          change_of operation service,
          (b, change_of-IsWantedChange operation service _, modified_run e s ∙ rw t refl),
        )
      ]
