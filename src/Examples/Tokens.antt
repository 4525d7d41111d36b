-- ===== src/Examples/Tokens.antt =====
-- The theorems on tokens at concrete inputs.
use service_discover.Common.{String, ◌<>◌, true, List, [], ◌∷◌, refl, ◌≡◌, Option, some, contains}
use service_discover.Command.ServiceToken.{Uuid, ensure_service_token, service_token_accessor}
use service_discover.Command.HostNames.{local_hostnames}
use service_discover.Command.HostNames.Local.{AreNames, local_hostnames-AreNames}
use service_discover.Command.ServiceToken.{is_token_not_found}
use service_discover.Command.ServiceToken.Store.{
  Store, read_of, ensured, fresh_token, ensure_service_token-implements,
}
use service_discover.Command.ServiceToken.Commands.{run_ensure}
use service_discover.Command.ServiceToken.Publishing.{run_ensure-publishes}
use service_discover.Command.TokenFile.Atomic.{Always}
use service_discover.Prog.{returns}
use service_discover.Prog.Triple.{Post}
use service_discover.Prog.Files.{FileState, absent, holds, file}
use service_discover.Examples.{answer}
use service_discover.Errors.{Error, status_error, as_status, ok}
use service_discover.World.{
  Call, Answer, Env, Token, token_list, token_read, token_create, token_update, lookup_host,
  lookup_addr,
}

abbrev uuid : Uuid
uuid = record { new_sha1 = λ s. "id of " <> s; is_valid = λ s. true }

abbrev names : List String
names = "carbonio-mta" ∷ []

abbrev hosts : List String
hosts = "mail.example" ∷ []

-- A token of the old kind, and tokens without a link to the policy.
abbrev reply_legacy : (c : Call) → Answer c
reply_legacy (token_list _) =
    ok (record { accessor_id = "old"; description = "Token for carbonio-mta/mail.example" } ∷ [])
reply_legacy c = answer c

abbrev legacy : Env
legacy = record { reply = λ h c. reply_legacy c }

-- A host with aliases, which its address gives twice.
abbrev reply_named : (c : Call) → Answer c
reply_named (lookup_host _) = "10.0.0.1" ∷ []
reply_named (lookup_addr _) = "mail." ∷ "host." ∷ "alias." ∷ "mail." ∷ []
reply_named c = answer c

abbrev named : Env
named = record { reply = λ h c. reply_named c }

local_hostnames-AreNames_example : AreNames named "host" (local_hostnames named []).0
local_hostnames-AreNames_example = local_hostnames-AreNames named "host" [] refl

-- Consul with one token, which has another policy.
abbrev unlinked_token : Token
unlinked_token = record {
  accessor_id = "id of mta/node";
  secret_id = "secret";
  description = "carbonio/mta/node";
  policies = "other" ∷ [];
}

abbrev stored_token : List Call → Option Token
stored_token [] = some unlinked_token
stored_token (token_create t ∷ h) = some (record t { secret_id = "fresh" })
stored_token (token_update t ∷ h) = some t
stored_token (_ ∷ h) = stored_token h

abbrev not_found : Error
not_found = status_error 404 "ACL not found"

abbrev reply_store : List Call → (c : Call) → Answer c
reply_store h (token_read _) = read_of (stored_token h) not_found
reply_store h (token_create t) = ok (record t { secret_id = "fresh" })
reply_store h (token_update t) = ok t
reply_store h c = answer c

abbrev consul : Env
consul = record { reply = reply_store }

not_found_lem : is_token_not_found not_found ≡ true
unfolding is_token_not_found as_status
not_found_lem = refl

abbrev token_store : Store consul (service_token_accessor uuid "mta" "node")
token_store = record {
  stored = stored_token;
  secret = "fresh";
  missing = not_found;
  not_found = not_found_lem;
  read = λ h. refl;
  keeps_read = λ h. refl;
  keeps_name = λ h. refl;
  create = λ h t e m. refl;
  created = λ h t e m. refl;
  update = λ h t old e m. refl;
  updated = λ h t old e m. refl;
}

ensure_service_token-implements_example :
    let token =
      ensured "mta-policy"
        (fresh_token uuid "mta" "mta-policy" "node" consul token_store)
        (some unlinked_token) in
    let first = ensure_service_token uuid "mta" "mta-policy" consul [] in
    let second = ensure_service_token uuid "mta" "mta-policy" consul first.1 in
    (first.0 ≡ returns token.secret_id)
    × (stored_token first.1 ≡ some token)
    × (second.0 ≡ returns token.secret_id)
    × (stored_token second.1 ≡ some token)
    × (contains token.policies "mta-policy" ≡ true)
ensure_service_token-implements_example =
    ensure_service_token-implements uuid "mta" "mta-policy" "node" consul token_store [] (λ h. refl)
      refl

abbrev no_files : String → FileState
no_files path = absent

run_ensure-publishes_example :
    let token =
      ensured "mta-policy"
        (fresh_token uuid "mta" "mta-policy" "node" consul token_store)
        (some unlinked_token) in
    let ran = run_ensure uuid "mta" "mta-policy" "/etc/carbonio/mta/token" "" consul [] in
    Always consul no_files "/etc/carbonio/mta/token" token.secret_id absent [] ran.1
    × Post
        (λ _ h. file consul no_files "/etc/carbonio/mta/token" h ≡ holds token.secret_id)
        (λ h. file consul no_files "/etc/carbonio/mta/token" h ≡ absent)
        ran.0
        ran.1
run_ensure-publishes_example =
    run_ensure-publishes uuid "mta" "node" "mta-policy" consul no_files "/etc/carbonio/mta/token"
      token_store "" [] (λ h. refl) refl refl refl (λ h d p name e k. cc)
