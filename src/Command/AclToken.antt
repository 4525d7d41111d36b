-- ===== src/Command/AclToken.antt =====
-- pkg/command/common.go: the node's name, and the ACL token of the node's agent.
pub mod Waiting
use service_discover.Common.{ℕ, zero, suc, String, ◌<>◌, List, [], ◌∷◌, if◌then◌else◌}
use service_discover.Text.{replace_all}
use service_discover.Errors.{Error, wrapped}
use service_discover.Command.TokenCreation.{unmarshal_token}
use service_discover.Json.{Codec}
use service_discover.Exec.{error_from_stderr}
use service_discover.World.{set_env, unset_env, command_output, wait_or_deadline}
use service_discover.Prog.{
  Prog, ask, result, check, pure, fail, panic, map_error, deferring, either, ◌>>=◌, ◌>>◌,
}

abbrev pub consul_http_token : String
consul_http_token = "CONSUL_HTTP_TOKEN"

abbrev pub consul_bin : String
consul_bin = "/usr/bin/consul"

-- `ConsulRole`
pub data Role : Type 0 where
  agent server : Role

abbrev pub role_text : Role → String
role_text agent = "agent"
role_text server = "server"

-- `ConsulNodeName`
unfoldable pub consul_node_name : Role → (hostname : String) → String
consul_node_name prefix hostname = replace_all (role_text prefix <> ("-" <> hostname)) b'.' "-"

-- `ACLPolicyTemplateText` around the policy's name: html/template quotes it for the place that it
-- stands in, which `quoted` does.
abbrev pub acl_policy : (quoted : String) → String
acl_policy quoted =
    "{\n   \"node\":{\n      \""
    <> (quoted
        <> "\":{\n         \"policy\":\"write\"\n      }\n   },\n   \"node_prefix\":{\n      \"\":{\n         \"policy\":\"read\"\n      }\n   },\n   \"service_prefix\":{\n      \"\":{\n         \"policy\":\"write\"\n      }\n   }\n}")

abbrev pub env_error : Error → Error
env_error = wrapped "unable to set correct env variable before starting ACL token creation"

abbrev pub policy_command : (name rules : String) → List String
policy_command name rules = "acl" ∷ "policy" ∷ "create" ∷ "-name" ∷ name ∷ "-rules" ∷ rules ∷ []

abbrev pub token_command : (name : String) → List String
token_command name = "acl" ∷ "token" ∷ "create" ∷ "-policy-name" ∷ name ∷ "-format" ∷ "json" ∷ []

abbrev pub create_failed : (policy : String) → Error → Error
create_failed policy e = error_from_stderr e ("unable to create ACL token for policy " <> policy)

module _ (codec : Codec) (html_quote : String → String) where
  -- The loop of `CreateACLToken`. Each round takes the fuel of one wait; `html_quote` is the quoting
  -- of html/template.
  unfoldable pub create_loop : (fuel : ℕ) → (policy : String) → Prog Error String
  create_loop zero policy = panic "out of fuel"
  create_loop (suc fuel) policy = do
    _ ← ask (command_output consul_bin (policy_command policy (acl_policy (html_quote policy))))
    created ← ask (command_output consul_bin (token_command policy))
    either created
        (λ response.
          map_error (result (unmarshal_token codec response))
            (wrapped "unable to decode response from consul agent"))
        (λ e. do
          over ← ask (wait_or_deadline 1000)
          if over then fail (create_failed policy e) else create_loop fuel policy)

  -- `CreateACLToken`
  unfoldable pub create_acl_token :
      (fuel : ℕ) → Role → (hostname root_token : String) → Prog Error String
  create_acl_token fuel prefix hostname root_token = do
    map_error (check (ask (set_env consul_http_token root_token))) env_error
    deferring (create_loop fuel (consul_node_name prefix hostname)) (unset_env consul_http_token)

-- `SetACLToken`
unfoldable pub set_acl_token : (token root_token : String) → Prog Error (Unit {0})
set_acl_token token root_token = do
  map_error (check (ask (set_env consul_http_token root_token))) env_error
  deferring
      (do
        _ ←
            map_error
              (check (
                ask
                  (command_output consul_bin ("acl" ∷ "set-agent-token" ∷ "default" ∷ token ∷ []))))
              (λ e. error_from_stderr e "unable to set agent token")
        pure tt)
      (unset_env consul_http_token)
