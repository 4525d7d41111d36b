-- ===== src/Server/FirstSetup/Removal.antt =====
-- cmd/server/command/setup/firstsetup.go: the temporary files with the gossip key and the ACL token
-- do not stay.
use service_discover.Common.{inl, refl, String, Bool, List, [], ◌∷◌}
use service_discover.World.{Call, Env, create_temp, write_file, remove}
use service_discover.Prog.Files.{FileState}
use service_discover.Prog.{ask, check, deferring, ◌>>=◌, ◌>>◌}
use service_discover.Prog.Emits.{Emits-ask, Emits-bind}
use service_discover.Prog.Triple.{Triple, Triple-bind}
use service_discover.Carbonio.Ldap.{Base64, LdapCredentials, ldap_context}
use service_discover.Command.BootstrapToken.{consul_acl_bootstrap}
use service_discover.Prog.Emits.{check-Emits}
use service_discover.Steps.Temps.{
  CanRemove, Pending, Swept, IsClean, kept, kept_last, made_temp, removed, clean,
}
use service_discover.Server.{Settings}
use service_discover.Server.Start.{enable_server}
use service_discover.Server.FirstSetup.Steps.{publish_credentials-Emits, enable_server-Emits}
use service_discover.Server.FirstSetup.{publish_credentials, store_credentials}

module _ (base64 : Base64) (c : LdapCredentials)
    (ranged : List (String × String) → List (String × String)) (s : Settings) (env : Env)
    (acl_json gossip_key password : String) (container : Bool) where
  -- From the second temporary file on, with the removal of the first one to come.
  gossip-Triple :
      (acl_file : String)
      → let names = acl_file ∷ [] in
        Triple env
          (Pending env names)
          (do
            gossip_file ← check (ask (create_temp "" "gossip-key"))
            deferring
                (do
                  publish_credentials ranged s
                      (ldap_context base64 c)
                      acl_file
                      gossip_file
                      gossip_key
                      password
                  enable_server container)
                (remove gossip_file))
          (λ _. Swept env names)
          (Swept env names)
  gossip-Triple acl_file =
      let names = acl_file ∷ [] in
      Triple-bind _ _ (made_temp env "" "gossip-key" names) λ gossip_file.
        removed env gossip_file names _ (
          kept_last env (gossip_file ∷ names) _ (
            Emits-bind _ _
              (publish_credentials-Emits base64 c ranged s acl_file gossip_file gossip_key password)
              λ _. enable_server-Emits container))

  store_credentials-Triple :
      Triple env
        (Pending env [])
        (store_credentials ranged s (ldap_context base64 c) acl_json gossip_key password container)
        (λ _. Swept env [])
        (Swept env [])
  unfolding store_credentials
  store_credentials-Triple = Triple-bind _ _ (made_temp env "" consul_acl_bootstrap []) λ acl_file.
      removed env acl_file [] _ (
        Triple-bind _ _
          (kept env (acl_file ∷ []) _
            (check-Emits _ (Emits-ask (write_file acl_file acl_json 0o600) (inl refl))))
          λ _. gossip-Triple acl_file)

  -- The end of the first setup leaves no temporary file with the ACL token or the gossip key behind:
  -- at the end of every run, whether it returns, fails at any step or panics, the file of each
  -- temporary file that it made is absent. This is if no temporary file was made before, and if each
  -- removal is answered without an error or has no file to remove.
  pub store_credentials-IsClean :
      (start : String → FileState) (h : List Call)
      → CanRemove env start
      → Pending env [] h
      → IsClean env start
          (store_credentials ranged s
            (ldap_context base64 c)
            acl_json
            gossip_key
            password
            container
            env
            h).1
  store_credentials-IsClean start h can t = clean env start _ h can store_credentials-Triple t
