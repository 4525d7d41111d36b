-- ===== src/Examples/Openings.antt =====
-- The theorems on what comes behind the opening of the credential at a concrete input: a credential
-- that has the four files.
use service_discover.Common.{[]}
use service_discover.Carbonio.Ldap.{ldap_context}
use service_discover.Agent.Setup.{install}
use service_discover.Steps.Unlocking.{Unlocked}
use service_discover.Agent.Ordering as AgentOrdering
use service_discover.Server.ImportSetup.{import_credential}
use service_discover.Server.ImportSetup.Ordering as ImportOrdering
use service_discover.Examples.{no_json, plain_base64}
use service_discover.Examples.Servers.{server_settings, ldap}
use service_discover.Examples.Setups.{settings, unpacked}

install-Unlocked_example :
    Unlocked unpacked
      (AgentOrdering.HasFiles settings)
      (install no_json (λ s. s) 31 settings "host" "credential" unpacked []).1
install-Unlocked_example =
    AgentOrdering.install-Unlocked unpacked settings no_json (λ s. s) 31 "host" "credential" [] tt

import_credential-Unlocked_example :
    Unlocked unpacked ImportOrdering.HasFiles
      (import_credential no_json
        (λ s. s)
        31
        server_settings
        (ldap_context plain_base64 ldap)
        "host"
        unpacked
        []).1
import_credential-Unlocked_example =
    ImportOrdering.import_credential-Unlocked plain_base64 ldap no_json (λ s. s) 31 server_settings
      "host" unpacked [] tt
