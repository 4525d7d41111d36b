-- ===== src/Command/ServiceToken/Store.antt =====
-- pkg/command/service_token.go: `ensureServiceToken` against the store of tokens that Consul is.
use service_discover.Common.{
  String, true, Option, none, some, List, [], ◌∷◌, ◌++◌, ◌≡◌, refl, ap, sym, subst, ◌∙◌, contains,
  if◌then◌else◌, Bool-cases, inl, inr, ◌is◌, is-cases,
}
use service_discover.Errors.{Error, Result, ok, err, is_error}
use service_discover.World.{
  Call, Env, Token, consul_node_name, token_read, token_create, token_update,
}
use service_discover.Prog.{Outcome, returns, running}
use service_discover.Command.ServiceToken.{
  Uuid, new_token, adopt_token, create_or_adopt, ensure_service_token, read_token,
  service_token_accessor, is_token_not_found,
}

-- The answer to a read of what is stored.
abbrev pub read_of : Option Token → (missing : Error) → Result Token
read_of (some token) missing = ok token
read_of none missing = err missing

-- Consul, for the token of one accessor that nobody else changes: a read gives what is stored, a
-- missing token can be created and gets a secret, and a token that is there can be replaced.
pub record Store (env : Env) (accessor : String) : Type 0 where
  pub stored : List Call → Option Token
  pub secret : String
  pub missing : Error
  pub not_found : is_token_not_found missing ≡ true
  pub read : (h : List Call) → env.reply h (token_read accessor) ≡ read_of (stored h) missing
  pub keeps_read : (h : List Call) → stored (token_read accessor ∷ h) ≡ stored h
  pub keeps_name : (h : List Call) → stored (consul_node_name ∷ h) ≡ stored h
  pub create :
      (h : List Call) (t : Token)
      → t.accessor_id ≡ accessor
      → stored h ≡ none
      → env.reply h (token_create t) ≡ ok (record t { secret_id = secret })
  pub created :
      (h : List Call) (t : Token)
      → t.accessor_id ≡ accessor
      → stored h ≡ none
      → stored (token_create t ∷ h) ≡ some (record t { secret_id = secret })
  pub update :
      (h : List Call) (t old : Token)
      → t.accessor_id ≡ old.accessor_id
      → stored h ≡ some old
      → env.reply h (token_update t) ≡ ok t
  pub updated :
      (h : List Call) (t old : Token)
      → t.accessor_id ≡ old.accessor_id
      → stored h ≡ some old
      → stored (token_update t ∷ h) ≡ some t

-- The specification: a missing token is the fresh one, a token that is there gets the policy behind
-- its others where it lacks it.
abbrev pub ensured : (policy : String) (fresh : Token) → Option Token → Token
ensured policy fresh none = fresh
ensured policy fresh (some t) =
    if contains t.policies policy then t else record t { policies = t.policies ++ policy ∷ [] }

module _ (uuid : Uuid) (service policy node : String) (env : Env)
    (store : Store env (service_token_accessor uuid service node)) where
  open store use {stored, secret}

  abbrev accessor : String
  accessor = service_token_accessor uuid service node

  abbrev pub fresh_token : Token
  fresh_token = record (new_token uuid service node policy) { secret_id = secret }

  -- The run returned the secret of the token, and the token is stored.
  abbrev Leaves : (t : Token) → Outcome Error String × List Call → Type 0
  Leaves t (r, h) = (r ≡ returns t.secret_id) × (stored h ≡ some t)

  abbrev behind_read : List Call → List Call
  behind_read h = token_read accessor ∷ consul_node_name ∷ h

  same_stored : (h : List Call) → stored (behind_read h) ≡ stored h
  same_stored h = store.keeps_read (consul_node_name ∷ h) ∙ store.keeps_name h

  read_answer :
      (h : List Call) (o : Option Token)
      → stored h ≡ o
      → env.reply (consul_node_name ∷ h) (token_read accessor) ≡ read_of o store.missing
  read_answer h o m =
      store.read (consul_node_name ∷ h) ∙ ap (λ x. read_of x store.missing) (store.keeps_name h ∙ m)

  adopt_token-Leaves :
      (h : List Call) (t : Token)
      → stored h ≡ some t
      → uuid.is_valid t.secret_id ≡ true
      → Leaves
          (ensured policy fresh_token (some t))
          (adopt_token uuid accessor service policy t env h)
  unfolding adopt_token running
  adopt_token-Leaves h t m v = elim (Bool-cases (contains t.policies policy)) [
    | inl linked ↦ rw (v, linked) (refl, m)
    | inr unlinked ↦
        rw (v, unlinked)
          (let linked = record t { policies = t.policies ++ policy ∷ [] } in
            rw (store.update h linked t refl m) (refl, store.updated h linked t refl m))
  ]

  module _ (h : List Call) (e : env.reply h consul_node_name ≡ ok node) where
    ensure_missing :
        stored h ≡ none → Leaves fresh_token (ensure_service_token uuid service policy env h)
    unfolding ensure_service_token read_token create_or_adopt running is_error
    ensure_missing m =
        let t = new_token uuid service node policy in
        let absent = same_stored h ∙ m in
        rw (e, read_answer h none m, store.not_found, store.create (behind_read h) t refl absent)
          (refl, store.created (behind_read h) t refl absent)

    ensure_found :
        (t : Token)
        → stored h ≡ some t
        → uuid.is_valid t.secret_id ≡ true
        → Leaves
            (ensured policy fresh_token (some t))
            (ensure_service_token uuid service policy env h)
    unfolding ensure_service_token read_token create_or_adopt running
    ensure_found t m v =
        rw (e, read_answer h (some t) m)
          (adopt_token-Leaves (behind_read h) t (same_stored h ∙ m) v)

  abbrev spec : Option Token → Token
  spec = ensured policy fresh_token

  contains-last : (names : List String) → contains (names ++ policy ∷ []) policy ≡ true
  unfolding contains
  contains-last [] = elim (is-cases policy policy) [
    | inl (_, b) ↦ rw b
    | inr (n, _) ↦ absurd (n refl)
  ]
  contains-last (name ∷ names) = elim (Bool-cases (name is policy)) [
    | inl b ↦ rw b
    | inr b ↦ rw b (contains-last names)
  ]

  -- A token that was ensured keeps its secret, has the policy, and needs nothing more.
  spec-secret : (t : Token) → (spec (some t)).secret_id ≡ t.secret_id
  spec-secret t = elim (Bool-cases (contains t.policies policy)) [ inl b ↦ rw b | inr b ↦ rw b ]

  spec-linked : (o : Option Token) → contains (spec o).policies policy ≡ true
  spec-linked none = contains-last []
  spec-linked (some t) = elim (Bool-cases (contains t.policies policy)) [
    | inl b ↦ rw b b
    | inr b ↦ rw b (contains-last t.policies)
  ]

  spec-spec : (o : Option Token) → spec (some (spec o)) ≡ spec o
  spec-spec o = rw (spec-linked o)

  ensure-Leaves :
      (h : List Call) (o : Option Token)
      → env.reply h consul_node_name ≡ ok node
      → stored h ≡ o
      → uuid.is_valid (spec o).secret_id ≡ true
      → Leaves (spec o) (ensure_service_token uuid service policy env h)
  ensure-Leaves h none e m v = ensure_missing h e m
  ensure-Leaves h (some t) e m v = ensure_found h e t m (ap uuid.is_valid (sym (spec-secret t)) ∙ v)

  -- `ensureServiceToken` implements its specification on the store, if Consul gives the name of the
  -- node and the secret of the token is shown: the token of the service and the node is stored as
  -- the specification says, created if it was missing and linked to the policy if it was not, and
  -- its secret is returned. A second run returns the same and changes nothing.
  pub ensure_service_token-implements :
      (h : List Call)
      → ((h : List Call) → env.reply h consul_node_name ≡ ok node)
      → uuid.is_valid (ensured policy fresh_token (stored h)).secret_id ≡ true
      → let token = ensured policy fresh_token (stored h) in
        let first = ensure_service_token uuid service policy env h in
        let second = ensure_service_token uuid service policy env first.1 in
        (first.0 ≡ returns token.secret_id)
        × (stored first.1 ≡ some token)
        × (second.0 ≡ returns token.secret_id)
        × (stored second.1 ≡ some token)
        × (contains token.policies policy ≡ true)
  ensure_service_token-implements h named v =
      let token = spec (stored h) in
      let first = ensure_service_token uuid service policy env h in
      let once = ensure-Leaves h (stored h) (named h) refl v in
      let again =
        ensure-Leaves first.1 (some token) (named first.1) once.1
          (ap uuid.is_valid (spec-secret token) ∙ v) in
      let twice =
        subst (λ t. Leaves t (ensure_service_token uuid service policy env first.1))
          (spec-spec (stored h)) again in
      (once.0, once.1, twice.0, twice.1, spec-linked (stored h))
