-- ===== src/Command/ServiceToken/Pruning.antt =====
-- pkg/command/service_token.go: what `pruneLegacyServiceTokens` deletes.
use service_discover.Common.{
  String, ◌<>◌, true, Option, none, some, List, [], ◌∷◌, ◌≡◌, ◌≢◌, ◌⊎◌, In, All,
}
use service_discover.Errors.{Error, Result, wrapped, ok, err}
use service_discover.World.{
  Call, Env, ListEntry, consul_node_name, token_read, policy_read, token_list, token_delete,
}
use service_discover.Prog.{Prog, result, ◌>>=◌, map_error}
use service_discover.Prog.Triple.{Triple}
use service_discover.Command.ServiceToken.{
  Uuid, read_refusal, is_legacy_service_token, prune_loop, read_token, list_by_policy,
}

-- An answer to `token_list` has the entry.
abbrev Has : Result (List ListEntry) → ListEntry → Type 0
Has (ok entries) e = In e entries
Has (err x) e = ⊥

module _ (env : Env) (policy current : String) (legacy_names hosts : List String) where
  -- The last call read the policy, and gave this id.
  abbrev pub IsPolicy : (id : String) → List Call → Type 0
  IsPolicy id (policy_read p ∷ h) = (p ≡ policy) × (env.reply h (policy_read p) ≡ ok (some id))
  IsPolicy id _ = ⊥

  -- Consul listed the entry among the tokens of the policy.
  abbrev pub IsListed : ListEntry → List Call → Type 0
  IsListed e [] = ⊥
  IsListed e (token_list id ∷ h) =
      (Has (env.reply h (token_list id)) e × IsPolicy id h) ⊎ IsListed e h
  IsListed e (_ ∷ h) = IsListed e h

  -- The token is one that Consul listed with the description of a legacy token, and not the current.
  pub record IsLegacy (id : String) (h : List Call) : Type 0 where
    pub entry : ListEntry
    pub listed : IsListed entry h
    pub named : entry.accessor_id ≡ id
    pub other : id ≢ current
    pub legacy : is_legacy_service_token entry.description legacy_names hosts ≡ true

  -- The history goes on from `before` by calls that read, and by the removal of legacy tokens.
  pub data Prunes (before : List Call) : List Call → Type 0 where
    begins : Prunes before before
    names : (h : List Call) → Prunes before h → Prunes before (consul_node_name ∷ h)
    reads : (id : String) (h : List Call) → Prunes before h → Prunes before (token_read id ∷ h)
    finds : (p : String) (h : List Call) → Prunes before h → Prunes before (policy_read p ∷ h)
    lists : (id : String) (h : List Call) → Prunes before h → Prunes before (token_list id ∷ h)
    deletes :
        (id : String) (h : List Call)
        → IsLegacy id h
        → Prunes before h
        → Prunes before (token_delete id ∷ h)

  module _ (uuid : Uuid) (before : List Call) where
    -- All the entries were listed.
    abbrev AreListed : List ListEntry → List Call → Type 0
    AreListed entries h = Prunes before h × All (λ e. IsListed e h) entries

    abbrev IsFound : Option String → List Call → Type 0
    IsFound none h = Unit
    IsFound (some id) h = IsPolicy id h

    -- What follows the read of the node's name.
    abbrev rest : (service : String) → Prog Error (List String × Result (Unit {0}))
    rest service =
        map_error (read_token current >>= result) (read_refusal uuid current service) >>= λ _.
        map_error (list_by_policy policy) (wrapped ("unable to list tokens of policy " <> policy))
        >>= λ tokens. prune_loop uuid current legacy_names hosts tokens []
