-- ===== src/Examples/Elections.antt =====
-- The theorem on the order of the first setup at a concrete input: an LDAP that knows the server, and a
-- Consul that names a leader.
use service_discover.Common.{[], ◌∷◌}
use service_discover.Errors.{ok}
use service_discover.World.{
  Call, Answer, Env, ldap_search, net_interfaces, addr_resolver, lookup_ip, v4,
}
use service_discover.Server.FirstSetup.{first_setup}
use service_discover.Server.FirstSetup.Ordering.{Led}
use service_discover.Server.FirstSetup.Bootstrapping.{first_setup-Led}
use service_discover.Examples.{answer, plain_base64, no_json, parse_five}
use service_discover.Examples.Servers.{server_settings}

-- LDAP knows the server, and its address is on its network.
abbrev reply_known : (c : Call) → Answer c
reply_known (ldap_search _ _ _ _) = ok (record { dn = "cn=host"; attributes = [] } ∷ [])
reply_known net_interfaces = ok ("eth0" ∷ [])
reply_known (addr_resolver n) = ok ("10.0.0.1/24" ∷ [])
reply_known (lookup_ip host) = ok (v4 10 0 0 1 ∷ [])
reply_known c = answer c

abbrev known : Env
known = record { reply = λ h c. reply_known c }

first_setup-Led_example :
    Led known
      (first_setup
        (λ files. files)
        no_json
        (λ s. s)
        121
        plain_base64
        parse_five
        server_settings
        known
        []).1
first_setup-Led_example =
    first_setup-Led known plain_base64 (λ files. files) no_json (λ s. s) 121 parse_five
      server_settings [] tt
