-- ===== src/Command/ServiceToken/Ensuring.antt =====
-- pkg/command/service_token.go: what `ensureServiceToken` changes.
use service_discover.Common.{
  String, Bool, true, false, List, [], ◌∷◌, ◌++◌, ◌≡◌, ◌⊎◌, inl, inr, refl, contains, if◌then◌else◌,
}
use service_discover.Errors.{Error, Result, ok, err, sentinel, is_error, token_not_found}
use service_discover.World.{
  Call, Env, Token, consul_node_name, token_read, token_create, token_update,
}
use service_discover.Prog.{Prog, result, either, pure, ◌>>=◌, running}
use service_discover.Prog.Triple.{
  Triple, Triple-bind, Triple-ask, Triple-on_error, Triple-fail, Triple-pure, Triple-before,
  Triple-if_known, Triple-either, Triple-any_result, Post-every,
}
use service_discover.Command.ServiceToken.{
  Uuid, new_token, adopt_token, create_or_adopt, ensure_service_token, read_token,
  service_token_accessor, is_token_not_found,
}

-- The error says that there is no such token, by its status or as the program's own error.
abbrev pub SaysMissing : Error → Type 0
SaysMissing e = (is_token_not_found e ≡ true) ⊎ (is_error e token_not_found ≡ true)

says_missing :
    (b : Bool) (e : Error)
    → is_error (if b then sentinel token_not_found else e) token_not_found ≡ true
    → (b ≡ true) ⊎ (is_error e token_not_found ≡ true)
says_missing true e t = inl refl
says_missing false e t = inr t

module _ (env : Env) (uuid : Uuid) (service node policy : String) where
  abbrev accessor : String
  accessor = service_token_accessor uuid service node

  -- The last call read the token that the node's name determines, and this was the answer.
  abbrev pub IsRead : Result Token → List Call → Type 0
  IsRead r (token_read id ∷ h) = (id ≡ accessor) × (env.reply h (token_read id) ≡ r)
  IsRead r _ = ⊥

  abbrev pub IsMissing : List Call → Type 0
  IsMissing h = (e : Error) × IsRead (err e) h × SaysMissing e

  -- The history goes on from `before` by reads of the node's name and of its token, by a creation of
  -- that token right behind a read that missed it, and by an update of it right behind a read that
  -- gave it without a link to the policy: the token as it was read, with the link added.
  pub data Ensures (before : List Call) : List Call → Type 0 where
    begins : Ensures before before
    names : (h : List Call) → Ensures before h → Ensures before (consul_node_name ∷ h)
    reads : (h : List Call) → Ensures before h → Ensures before (token_read accessor ∷ h)
    creates :
        (h : List Call)
        → IsMissing h
        → Ensures before h
        → Ensures before (token_create (new_token uuid service node policy) ∷ h)
    updates :
        (token : Token) (h : List Call)
        → IsRead (ok token) h
        → contains token.policies policy ≡ false
        → Ensures before h
        → Ensures before
            (token_update (record token { policies = token.policies ++ policy ∷ [] }) ∷ h)

  module _ (before : List Call) where
    abbrev Known : Result Token → List Call → Type 0
    Known (ok token) h = Ensures before h × IsRead (ok token) h
    Known (err e) h = Ensures before h × (is_error e token_not_found ≡ true → IsMissing h)

    either-Known :
        (r : Result Token)
        → Triple {E = Error} env
            (λ h. Ensures before h × IsRead r h)
            (either r
              (λ token. pure (ok token))
              (λ e. pure (err (if is_token_not_found e then sentinel token_not_found else e))))
            Known
            (Ensures before)
    unfolding running
    either-Known (ok token) = record { at = λ h p. p }
    either-Known (err e) = record {
      at = λ h (p, k). (p, λ t. (e, k, says_missing (is_token_not_found e) e t));
    }

    read_token-Triple : Triple env (Ensures before) (read_token accessor) Known (Ensures before)
    unfolding read_token
    read_token-Triple =
        Triple-bind _ _
          (Triple-ask (token_read accessor) (λ r h. Ensures before h × IsRead r h)
            (λ h p. (reads h p, (refl, refl))))
          either-Known

    adopt_token-Triple :
        (token : Token)
        → Triple env
            (λ h. Ensures before h × IsRead (ok token) h)
            (adopt_token uuid accessor service policy token)
            (λ _. Ensures before)
            (Ensures before)
    unfolding adopt_token
    adopt_token-Triple token =
        Triple-if_known (uuid.is_valid token.secret_id) _ _
          (λ _.
            Triple-if_known (contains token.policies policy) _ _
              (λ _.
                Triple-before _ (λ h p. p.0) (Triple-pure token.secret_id (λ _. Ensures before)))
              (λ unlinked.
                Triple-bind _ _
                  (Triple-on_error _ _
                    (Triple-bind _ result
                      (Triple-ask
                        (token_update (record token { policies = token.policies ++ policy ∷ [] }))
                        (λ _. Ensures before) (λ h (p, k). updates token h k unlinked p))
                      Triple-any_result)
                    (λ h p. p) (λ e. Triple-fail _ _))
                  (λ _. Triple-pure token.secret_id (λ _. Ensures before))))
          (λ _. Triple-before _ (λ h p. p.0) (Triple-fail _ _))

    result-Known :
        (r : Result Token)
        → Triple env
            (Known r)
            (result r)
            (λ token h. Ensures before h × IsRead (ok token) h)
            (Ensures before)
    unfolding running
    result-Known (ok token) = record { at = λ h p. p }
    result-Known (err e) = record { at = λ h p. p.0 }

    create_or_adopt-Triple :
        (answer : Result Token)
        → Triple env
            (Known answer)
            (create_or_adopt uuid accessor service node policy answer)
            (λ _. Ensures before)
            (Ensures before)
    unfolding create_or_adopt
    create_or_adopt-Triple (ok token) = adopt_token-Triple token
    create_or_adopt-Triple (err e) =
        Triple-if_known (is_error e token_not_found) _ _
          (λ missing.
            Triple-bind _ _
              (Triple-ask (token_create (new_token uuid service node policy)) (λ _. Ensures before)
                (λ h (p, k). creates h (k missing) p))
              λ created.
                Triple-either created _ _
                  (λ token. Triple-pure token.secret_id (λ _. Ensures before))
                  (λ x.
                    Triple-bind _ _
                      (Triple-on_error _ _ (Triple-bind _ result read_token-Triple result-Known)
                        (λ h p. p) (λ y. Triple-fail _ _))
                      adopt_token-Triple))
          (λ _. Triple-before _ (λ h p. p.0) (Triple-fail _ _))

    -- What follows the read of the node's name.
    abbrev rest : Prog Error String
    rest = read_token accessor >>= create_or_adopt uuid accessor service node policy

    rest-Ensures : (h : List Call) → Ensures before h → Ensures before (rest env h).1
    rest-Ensures h p =
        Post-every (Ensures before) (rest env h).0 (rest env h).1
          ((Triple-bind _ _ read_token-Triple create_or_adopt-Triple).at h p)

pub ensure_service_token-Ensures :
    (uuid : Uuid) (service policy : String) (env : Env) (h : List Call) (node : String)
    → env.reply h consul_node_name ≡ ok node
    → Ensures env uuid service node policy h (ensure_service_token uuid service policy env h).1
unfolding ensure_service_token running
ensure_service_token-Ensures uuid service policy env h node e = rw e (
    rest-Ensures env uuid service node policy h (consul_node_name ∷ h)
      (Ensures.names h Ensures.begins))
