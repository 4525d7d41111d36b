-- ===== src/Command/ServiceToken/Commands.antt =====
-- pkg/command/service_token.go: the commands `ensure` and `prune-legacy`.
use service_discover.Common.{String, ◌<>◌, ◌==◌, ◌||◌, none, some, List, [], ◌∷◌, if◌then◌else◌}
use service_discover.Text.{join}
use service_discover.Errors.{Error, wrapped, as_status, Result, ok}
use service_discover.World.{consul_client, consul_self, print}
use service_discover.Prog.{Prog, ask, check, pure, map_error, result, ◌>>=◌, ◌>>◌}
use service_discover.Command.ServiceToken.{Uuid, ensure_service_token, prune_legacy_service_tokens}
use service_discover.Command.TokenFile.{write_token_file}
use service_discover.Command.HostNames.{local_hostnames}

-- What the error of `TokenReadSelf` is reported as.
unfoldable pub self_error : Error → Error
self_error e = elim (as_status e) [
  | none ↦ wrapped "unable to reach Consul" e
  | some s ↦
      if s.code == 401 || s.code == 403
      then wrapped "CONSUL_HTTP_TOKEN is not a valid Consul token" e
      else wrapped "unexpected response from Consul" e
]

-- `newConsulServiceTokenACL`: a wrong token is reported before any other call.
unfoldable pub new_acl : Prog Error (Unit {0})
new_acl = do check (ask consul_client); map_error (check (ask consul_self)) self_error

-- `fmt.Printf` for each deleted token.
unfoldable pub print_deleted : (service : String) → List String → Prog Error (Unit {0})
print_deleted service [] = pure tt
print_deleted service (accessor ∷ deleted) = do
  _ ← ask (print ("Deleted legacy token " <> (accessor <> (" of " <> (service <> "\n")))))
  print_deleted service deleted

-- The line for nothing found, and the error that comes back.
abbrev pub conclude_prune :
    (service : String) → List String → Result (Unit {0}) → Prog Error (Unit {0})
conclude_prune service [] (ok _) = do
  _ ← ask (print ("No legacy tokens of " <> (service <> " found\n")))
  pure tt
conclude_prune service _ r = result r

-- The fields of `EnsureServiceToken`.
pub record EnsureServiceToken : Type 0 where
  pub service : String
  pub policy : String
  pub token_file : String
  pub owner : String

-- The fields of `PruneLegacyServiceTokens`.
pub record PruneLegacyServiceTokens : Type 0 where
  pub service : String
  pub policy : String
  pub legacy_service : List String

-- `ServiceToken`
pub record ServiceToken : Type 0 where
  pub ensure : EnsureServiceToken
  pub prune_legacy : PruneLegacyServiceTokens

module _ (uuid : Uuid) where
  -- `EnsureServiceToken.Run`
  unfoldable pub run_ensure : (service policy token_file owner : String) → Prog Error (Unit {0})
  unfolding new_acl
  run_ensure service policy token_file owner = do
    new_acl
    secret ← ensure_service_token uuid service policy
    write_token_file token_file secret owner

  -- `PruneLegacyServiceTokens.Run`
  unfoldable pub run_prune_legacy :
      (service policy : String) → (legacy_services : List String) → Prog Error (Unit {0})
  unfolding new_acl print_deleted
  run_prune_legacy service policy legacy_services = do
    new_acl
    hostnames ← local_hostnames
    _ ← ask (
        print (
          "Matching legacy tokens of "
          <> (join (service ∷ legacy_services) ", "
              <> (" against host names: " <> (join hostnames " " <> "\n")))))
    (deleted, ended) ←
        prune_legacy_service_tokens uuid service (service ∷ legacy_services) policy hostnames
    print_deleted service deleted
    conclude_prune service deleted ended
