-- ===== src/Command/ServiceToken.antt =====
-- pkg/command/service_token.go: the ACL token of a service of the mesh. `Uuid` stands for the uuid
-- library.
pub mod Commands
pub mod Ensuring
pub mod Pruning
pub mod Store
pub mod Publishing
use service_discover.Common.{
  String, ◌<>◌, Bool, true, false, ◌||◌, ◌&&◌, none, some, List, [], ◌∷◌, ◌++◌, ◌==◌, ◌is◌,
  if◌then◌else◌, contains,
}
use service_discover.Text.{join, fields, trim_prefix, trim_suffix, cut, contains_text}
use service_discover.Errors.{
  Error, wrapped, sentinel, is_error, token_not_found, token_not_ensured, redacted_secret, Result,
  ok, err, as_status,
}
use service_discover.World.{
  Token, ListEntry, consul_node_name, token_read, token_create, token_update, policy_read,
  token_list, token_delete,
}
use service_discover.Prog.{Prog, ask, result, check, pure, fail, map_error, either, maybe, ◌>>=◌}

-- `uuid.NewSHA1(serviceTokenNamespace, data).String()`, and whether `uuid.Parse` accepts a text.
pub record Uuid : Type 0 where
  pub new_sha1 : String → String
  pub is_valid : String → Bool

-- `isTokenNotFound`
unfoldable pub is_token_not_found : Error → Bool
is_token_not_found e = elim (as_status e) [
  | none ↦ false
  | some s ↦ s.code == 404 || (s.code == 403 && contains_text s.body "ACL not found")
]

-- The methods `TokenRead` and, below, `TokenListByPolicy` of `consulServiceTokenACL`; its other methods
-- are the calls themselves.
unfoldable pub read_token : String → Prog Error (Result Token)
read_token accessor = do
  answer ← ask (token_read accessor)
  either answer (λ token. pure (ok token))
      (λ e. pure (err (if is_token_not_found e then sentinel token_not_found else e)))

-- The method `TokenListByPolicy`: a policy that is not there has no tokens.
unfoldable pub list_by_policy : (policy : String) → Prog Error (List ListEntry)
list_by_policy policy = do
  found ← check (ask (policy_read policy))
  maybe found (pure []) (λ id. check (ask (token_list id)))

-- `ServiceTokenDescription`
abbrev pub service_token_description : (service node : String) → String
service_token_description service node = "carbonio/" <> (service <> ("/" <> node))

-- `isLegacyServiceToken`: the part behind the first slash, and the loop over its names.
unfoldable pub any_host : List String → (hostnames : List String) → Bool
unfolding contains
any_host [] hostnames = false
any_host (name ∷ names) hostnames =
    if contains hostnames (trim_suffix name ".") then true else any_host names hostnames

unfoldable pub is_legacy_service_token :
    (description : String) → (legacy_names hostnames : List String) → Bool
unfolding any_host
is_legacy_service_token description legacy_names hostnames =
    elim (cut (trim_prefix (join (fields description) " ") "Token for ") b'/') [
      | none ↦ false
      | some (service, names) ↦
          if contains legacy_names service then any_host (fields names) hostnames else false
    ]

abbrev pub about : (verb token service : String) → Error → Error
about verb token service = wrapped (verb <> (token <> (" of " <> service)))

module _ (uuid : Uuid) where
  -- `ServiceTokenAccessorID`
  unfoldable pub service_token_accessor : (service node : String) → String
  service_token_accessor service node = uuid.new_sha1 (service <> ("/" <> node))

  abbrev pub new_token : (service node policy : String) → Token
  new_token service node policy = record {
    accessor_id = service_token_accessor service node;
    secret_id = "";
    description = service_token_description service node;
    policies = policy ∷ [];
  }

  -- `ensureServiceToken` from the test of the token's secret on.
  unfoldable pub adopt_token : (accessor service policy : String) → Token → Prog Error String
  unfolding contains
  adopt_token accessor service policy token =
      if uuid.is_valid token.secret_id
      then (if contains token.policies policy then pure token.secret_id else do
        _ ←
            map_error
              (check
                (ask (token_update (record token { policies = token.policies ++ policy ∷ [] }))))
              (wrapped ("unable to link policy " <> (policy <> (" to token " <> accessor))))
        pure token.secret_id)
      else fail (about "token " accessor service (sentinel redacted_secret))

  -- The answer of the first read: a missing token is created, or adopted if someone else did.
  unfoldable pub create_or_adopt :
      (accessor service node policy : String) → Result Token → Prog Error String
  unfolding adopt_token is_error
  create_or_adopt accessor service node policy (ok token) =
      adopt_token accessor service policy token
  create_or_adopt accessor service node policy (err e) =
      if is_error e token_not_found
      then (do
        created ← ask (token_create (new_token service node policy))
        either created (λ token. pure token.secret_id)
            (λ create_error. do
              token ←
                  map_error (read_token accessor >>= result)
                    (λ _. about "unable to create token " accessor service create_error)
              adopt_token accessor service policy token))
      else fail (about "unable to read token " accessor service e)

  -- `ensureServiceToken`
  unfoldable pub ensure_service_token : (service policy : String) → Prog Error String
  ensure_service_token service policy = do
    node ← map_error (check (ask consul_node_name)) (wrapped "unable to read the Consul node name")
    found ← read_token (service_token_accessor service node)
    create_or_adopt (service_token_accessor service node) service node policy found

  -- The test in the loop of `pruneLegacyServiceTokens`: the entry is deleted.
  unfoldable pub is_pruned :
      (current : String) → (legacy_names hostnames : List String) → ListEntry → Bool
  is_pruned current legacy_names hostnames e =
      if e.accessor_id is current
      then false
      else is_legacy_service_token e.description legacy_names hostnames

  -- That loop. The deleted tokens come back beside an error too.
  unfoldable pub prune_loop :
      (current : String)
      → (legacy_names hostnames : List String) → List ListEntry
      → (deleted : List String) → Prog Error (List String × Result (Unit {0}))
  unfolding is_pruned
  prune_loop current legacy_names hostnames [] deleted = pure (deleted, ok tt)
  prune_loop current legacy_names hostnames (e ∷ entries) deleted =
      let skipped = prune_loop current legacy_names hostnames entries deleted in
      if is_pruned current legacy_names hostnames e
      then (do
        done ← ask (token_delete e.accessor_id)
        either done
            (λ _. prune_loop current legacy_names hostnames entries (deleted ++ e.accessor_id ∷ []))
            (λ x.
              pure (deleted, err (wrapped ("unable to delete legacy token " <> e.accessor_id) x))))
      else skipped

  abbrev pub read_refusal : (current service : String) → Error → Error
  read_refusal current service e =
      if is_error e token_not_found
      then about "token " current service (sentinel token_not_ensured)
      else about "unable to read token " current service e

  -- `pruneLegacyServiceTokens`
  unfoldable pub prune_legacy_service_tokens :
      (service : String)
      → (legacy_names : List String) → (policy : String) → (hostnames : List String)
      → Prog Error (List String × Result (Unit {0}))
  prune_legacy_service_tokens service legacy_names policy hostnames = do
    node ← map_error (check (ask consul_node_name)) (wrapped "unable to read the Consul node name")
    _ ←
        map_error (read_token (service_token_accessor service node) >>= result)
          (read_refusal (service_token_accessor service node) service)
    tokens ←
        map_error (list_by_policy policy) (wrapped ("unable to list tokens of policy " <> policy))
    prune_loop (service_token_accessor service node) legacy_names hostnames tokens []
