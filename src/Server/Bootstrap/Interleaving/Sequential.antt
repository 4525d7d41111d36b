-- ===== src/Server/Bootstrap/Interleaving/Sequential.antt =====
-- cmd/server/command/setup/firstsetup.go: the goroutine and the `select` together do what
-- `create_acl_bootstrap_token` does.
use service_discover.Common.{
  ℕ, zero, suc, ◌≤◌, String, Bool, true, false, ◌&&◌, Option, some, List, [], ◌∷◌, ◌++◌, ◌≡◌, refl,
  sym, ap, subst, ◌∙◌, All, length, ◌⊎◌, inl, inr, arith,
}
use service_discover.Errors.{Error, Result, ok}
use service_discover.World.{Call, Answer, Env, command_output, time_over}
use service_discover.Prog.{Outcome, fails, outcome_of, running}
use service_discover.Server.Bootstrap.{sent, create_acl_bootstrap_token, bootstrap_timeout}
use service_discover.Server.Bootstrap.Interleaving.{
  Goroutine, waits, commands, sends, exits, Select, selects, receives, gives_up, State, Reach,
  IsRetried, Finished, Placed, Seen,
}
use service_discover.Server.Bootstrap.Interleaving.Invariant.{Reach-Inv}

-- The first of the answers that are left, and the others.
abbrev first : List (Result String) → Result String
first [] = ok ""
first (a ∷ l) = a

abbrev others : List (Result String) → List (Result String)
others [] = []
others (a ∷ l) = l

abbrev is_empty : List (Result String) → Bool
is_empty [] = true
is_empty (a ∷ l) = false

-- The answers that are left behind the commands of a history.
abbrev pub left : (answers : List (Result String)) → List Call → List (Result String)
left answers [] = answers
left answers (command_output name args ∷ h) = others (left answers h)
left answers (_ ∷ h) = left answers h

-- A command gets the next answer. The time is never over, or it is once no answer is left.
abbrev pub played :
    Env → (answers : List (Result String)) → (over : Bool) → List Call → (c : Call) → Answer c
played env answers over h (command_output name args) = first (left answers h)
played env answers over h (time_over ms) = over && is_empty (left answers h)
played env answers over h c = env.reply h c

abbrev pub playing : Env → (answers : List (Result String)) → (over : Bool) → Env
playing env answers over = record { reply = played env answers over }

abbrev pub ended : (over : Bool) → Result String → Outcome Error String
ended true r = fails bootstrap_timeout
ended false r = outcome_of r

module _ (env : Env) (answers : List (Result String)) where
  -- Without a result, to the end of the time.
  waiting :
      (seen : List (Result String)) (fuel : ℕ) (h : List Call)
      → left answers h ≡ seen
      → All IsRetried seen
      → suc (length seen) ≤ fuel
      → (create_acl_bootstrap_token fuel (playing env answers true) h).0 ≡ fails bootstrap_timeout
  unfolding create_acl_bootstrap_token running
  waiting seen zero h e k f = absurd (omega (arith, f))
  waiting [] (suc fuel) h e k f = rw e refl
  waiting (a ∷ seen) (suc fuel) h e (k, ks) f =
      rw (e, ap (λ l. sent (first l)) e ∙ k)
        (waiting seen fuel _ (ap others e) ks (omega (arith, f)))

  finishing :
      (over : Bool) (before : List (Result String)) (last r : Result String) (fuel : ℕ)
      (h : List Call)
      → left answers h ≡ before ++ last ∷ []
      → All IsRetried before
      → sent last ≡ some r
      → suc (length before) ≤ fuel
      → (create_acl_bootstrap_token fuel (playing env answers over) h).0 ≡ ended over r
  unfolding create_acl_bootstrap_token running
  finishing over before last r zero h e k s f = absurd (omega (arith, f))
  finishing true [] last r (suc fuel) h e k s f =
      rw (e, ap (λ l. sent (first l)) e ∙ s) rw (ap others e) refl
  finishing false [] last r (suc fuel) h e k s f = rw (e, s) refl
  finishing true (a ∷ before) last r (suc fuel) h e (k, ks) s f =
      rw (e, ap (λ l. sent (first l)) e ∙ k)
        (finishing true before last r fuel _ (ap others e) ks s (omega (arith, f)))
  finishing false (a ∷ before) last r (suc fuel) h e (k, ks) s f =
      rw (ap (λ l. sent (first l)) e ∙ k)
        (finishing false before last r fuel _ (ap others e) ks s (omega (arith, f)))

-- What the `select` came to is what the sequential program comes to.
abbrev pub Agrees : Env → Select → (ran : List (Result String)) → Type 0
Agrees env selects ran = Unit
Agrees env (receives r) ran =
    (create_acl_bootstrap_token (suc (length ran)) (playing env ran false) []).0 ≡ outcome_of r
Agrees env (gives_up seen) ran =
    (create_acl_bootstrap_token (suc (length seen)) (playing env seen true) []).0
    ≡ fails bootstrap_timeout

length-append :
    (before : List (Result String)) (a : Result String)
    → length (before ++ a ∷ []) ≡ suc (length before)
length-append [] a = refl
length-append (b ∷ before) a = ap suc (length-append before a)

-- A first part of answers of which the last alone has a result.
cut :
    (seen new before : List (Result String)) (last : Result String)
    → seen ++ new ≡ before ++ last ∷ []
    → All IsRetried before
    → All IsRetried seen ⊎ (seen ≡ before ++ last ∷ [])
cut [] new before last e k = inl tt
cut (a ∷ []) new [] last e k = inr (ap (λ l. first l ∷ []) e)
cut (a ∷ b ∷ seen) new [] last e k = absurd (empty-cons (ap others e))
  where
    empty-cons : b ∷ (seen ++ new) ≡ [] → ⊥
    empty-cons f = cc
cut (a ∷ seen) new (b ∷ before) last e (k, ks) = elim (cut seen new before last (ap others e) ks) [
  | inl r ↦ inl (subst IsRetried (sym (ap first e)) k, r)
  | inr f ↦ inr (ap (λ x. x ∷ seen) (ap first e) ∙ ap (λ l. b ∷ l) f)
]

retried-first : (seen new : List (Result String)) → All IsRetried (seen ++ new) → All IsRetried seen
retried-first [] new k = tt
retried-first (a ∷ seen) new (k, ks) = (k, retried-first seen new ks)

module _ (env : Env) where
  retried-Agrees :
      (seen : List (Result String)) → All IsRetried seen → Agrees env (gives_up seen) seen
  retried-Agrees seen k = waiting env seen seen (suc (length seen)) [] refl k (omega arith)

  Finished-ended :
      (over : Bool) (ran : List (Result String)) (r : Result String)
      → Finished r ran
      → (create_acl_bootstrap_token (suc (length ran)) (playing env ran over) []).0 ≡ ended over r
  Finished-ended over ran r k =
      finishing env ran over k.before k.last r (suc (length ran)) [] k.split k.retried k.has
        (omega (arith, ap length k.split, length-append k.before k.last))

  gives_up-Agrees :
      (seen new ran : List (Result String)) (r : Result String)
      → ran ≡ seen ++ new
      → Finished r ran
      → Agrees env (gives_up seen) ran
  gives_up-Agrees seen new ran r e k =
      elim (cut seen new k.before k.last (sym e ∙ k.split) k.retried) [
        | inl retried ↦ retried-Agrees seen retried
        | inr all ↦ Finished-ended true seen r (subst (Finished r) (k.split ∙ sym all) k)
      ]

  Placed-Agrees :
      (g : Goroutine) (m : Select) (c : Option (Result String)) (ran : List (Result String))
      → Placed g m c ran
      → Seen m ran
      → Agrees env m ran
  Placed-Agrees g selects c ran p k = tt
  Placed-Agrees waits (receives r) c ran p k = absurd p.2
  Placed-Agrees commands (receives r) c ran p k = absurd p.2
  Placed-Agrees (sends x) (receives r) c ran p k = absurd p.2
  Placed-Agrees exits (receives r) c ran (x, (f, inl (e, h))) k = absurd h
  Placed-Agrees exits (receives r) c ran (x, (f, inr (e, h))) k =
      let same : x ≡ r = cc in Finished-ended false ran r (subst (λ y. Finished y ran) same f)
  Placed-Agrees waits (gives_up seen) c ran p (new, e) =
      retried-Agrees seen (retried-first seen new (subst (All IsRetried) e p.0))
  Placed-Agrees commands (gives_up seen) c ran p (new, e) =
      retried-Agrees seen (retried-first seen new (subst (All IsRetried) e p.0))
  Placed-Agrees (sends x) (gives_up seen) c ran p (new, e) = gives_up-Agrees seen new ran x e p.0
  Placed-Agrees exits (gives_up seen) c ran (x, (f, o)) (new, e) =
      gives_up-Agrees seen new ran x e f

  -- In every order of the steps of the goroutine, of its ticker and of the `select`, the result is
  -- that of the sequential `createACLBootstrapToken`, in a world whose commands answer what the
  -- commands of the goroutine did: where the `select` received a result, in a world whose time is
  -- never over, and where it gave up, in one whose time is over behind the answers that there were.
  pub Reach-Agrees : {s : State} → Reach s → Agrees env s.select s.ran
  Reach-Agrees {s} r =
      let inv = Reach-Inv r in
      Placed-Agrees s.goroutine s.select s.channel s.ran inv.placed inv.seen
