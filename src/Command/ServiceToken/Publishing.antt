-- ===== src/Command/ServiceToken/Publishing.antt =====
-- pkg/command/service_token.go: `EnsureServiceToken.Run`, from the store of tokens to the token file.
use service_discover.Common.{String, true, List, ◌∷◌, ◌≡◌, ◌≢◌, refl}
use service_discover.Errors.{ok}
use service_discover.World.{Call, Env, consul_client, consul_self, consul_node_name, create_temp}
use service_discover.Prog.{running}
use service_discover.Prog.Triple.{Post}
use service_discover.Prog.Files.{FileState, holds, file}
use service_discover.Command.TokenFile.Atomic.{
  Always, at_start, Waiting, step, split, write_token_file-Triple,
}
use service_discover.Command.ServiceToken.{Uuid, service_token_accessor}
use service_discover.Command.ServiceToken.Commands.{run_ensure, new_acl}
use service_discover.Command.ServiceToken.Ensuring.{Ensures, ensure_service_token-Ensures}
use service_discover.Command.ServiceToken.Store.{
  Store, ensured, fresh_token, ensure_service_token-implements,
}

module _ (uuid : Uuid) (service node policy : String) (env : Env) (start : String → FileState)
    (path : String) where
  -- What `ensureServiceToken` calls touches no file.
  Ensures-Waiting :
      (secret : String) (old : FileState) (h before after : List Call)
      → Ensures env uuid service node policy before after
      → Waiting env start path secret old h before
      → Waiting env start path secret old h after
  Ensures-Waiting secret old h before _ Ensures.begins w = w
  Ensures-Waiting secret old h before _ (Ensures.names g k) w =
      step env start path secret old h consul_node_name g tt
        (Ensures-Waiting secret old h before g k w)
  Ensures-Waiting secret old h before _ (Ensures.reads g k) w =
      step env start path secret old h _ g tt (Ensures-Waiting secret old h before g k w)
  Ensures-Waiting secret old h before _ (Ensures.creates g m k) w =
      step env start path secret old h _ g tt (Ensures-Waiting secret old h before g k w)
  Ensures-Waiting secret old h before _ (Ensures.updates t g r u k) w =
      step env start path secret old h _ g tt (Ensures-Waiting secret old h before g k w)

  module _ (store : Store env (service_token_accessor uuid service node)) (owner : String) where
    abbrev reached : List Call → List Call
    reached h = consul_self ∷ consul_client ∷ h

    -- `EnsureServiceToken.Run` on a node whose name Consul gives, with a valid Consul token and with
    -- temporary files that are not named like the token file: behind every call the token file is as
    -- it was or holds the whole secret of the token that the specification stores; it holds it when
    -- the command returns, and is as it was when the command fails or panics.
    pub run_ensure-publishes :
        (h : List Call)
        → ((h : List Call) → env.reply h consul_node_name ≡ ok node)
        → uuid.is_valid
            (ensured policy
              (fresh_token uuid service policy node env store)
              (store.stored (consul_self ∷ consul_client ∷ h))).secret_id
          ≡ true
        → env.reply h consul_client ≡ ok tt
        → env.reply (consul_client ∷ h) consul_self ≡ ok tt
        → ((h : List Call) (d p name : String)
            → env.reply h (create_temp d p) ≡ ok name
            → name ≢ path)
        → let token =
            ensured policy
              (fresh_token uuid service policy node env store)
              (store.stored (consul_self ∷ consul_client ∷ h)) in
          let ran = run_ensure uuid service policy path owner env h in
          let old = file env start path h in
          Always env start path token.secret_id old h ran.1
          × Post
              (λ _ h. file env start path h ≡ holds token.secret_id)
              (λ h. file env start path h ≡ old)
              ran.0
              ran.1
    unfolding run_ensure new_acl running
    run_ensure-publishes h named valid client self fresh =
        let token =
          ensured policy (fresh_token uuid service policy node env store)
            (store.stored (consul_self ∷ consul_client ∷ h)) in
        let old = file env start path h in
        let once =
          ensure_service_token-implements uuid service policy node env store (reached h) named
            valid in
        let before =
          step env start path token.secret_id old h consul_self (consul_client ∷ h) tt
            (step env start path token.secret_id old h consul_client h tt (at_start, refl)) in
        let waiting =
          Ensures-Waiting token.secret_id old h (reached h) _
            (ensure_service_token-Ensures uuid service policy env (reached h) node
              (named (reached h)))
            before in
        rw (client, self, once.0)
          (split env start path token.secret_id h _ _ (
            (write_token_file-Triple env start path token.secret_id old h owner fresh).at _
              waiting))
