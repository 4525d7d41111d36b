-- ===== src/Steps/Temps.antt =====
-- The temporary files that a run makes, and those of them that removals at its end clear.
use service_discover.Common.{
  String, Bool, true, false, List, [], ◌∷◌, ◌++◌, ◌≡◌, ◌⊎◌, inl, inr, refl, sym, subst, ap, ◌∙◌, In,
  All, if◌then◌else◌,
}
use service_discover.Errors.{Error, Result, ok, err}
use service_discover.World.{Call, Env, create_temp, remove}
use service_discover.Prog.{Prog, Outcome, returns, fails, panics, deferring, ask, result, ◌>>=◌}
use service_discover.Prog.Emits.{Emits, Emits-weaken}
use service_discover.Prog.Triple.{
  Triple, Post, Triple-check, Triple-ask, Triple-Emits, Triple-weaken, Triple-then, Answered,
  Post-every,
}
use service_discover.Prog.Files.{FileState, absent, file, replaced, if_own}
use service_discover.Steps.{IsNotTemp, IsStep, IsStep-IsNotTemp}

module _ (env : Env) (start : String → FileState) where
  -- A removal is answered without an error, or there is no file to remove.
  abbrev pub CanRemove : Type 0
  CanRemove =
      (h : List Call) (path : String)
      → (env.reply h (remove path) ≡ ok tt) ⊎ (file env start path h ≡ absent)

  kept_absent :
      (b : Bool) (r : Result (Unit {0})) (old : FileState)
      → old ≡ absent
      → (if b then replaced r absent old else old) ≡ absent
  kept_absent true (ok _) old e = refl
  kept_absent true (err _) old e = e
  kept_absent false r old e = e

  replaced-absent :
      (r : Result (Unit {0})) (old : FileState)
      → (r ≡ ok tt) ⊎ (old ≡ absent)
      → replaced r absent old ≡ absent
  replaced-absent r old (inl e) = ap (λ a. replaced a absent old) e
  replaced-absent (ok _) old (inr e) = refl
  replaced-absent (err _) old (inr e) = e

  pub file-remove :
      (path : String) (h : List Call) → CanRemove → file env start path (remove path ∷ h) ≡ absent
  file-remove path h can = if_own env start path _ _ ∙ replaced-absent _ _ (can h path)

abbrev removes : List String → List Call → List Call
removes [] h = h
removes (path ∷ paths) h = remove path ∷ removes paths h

removes-absent :
    (env : Env) (start : String → FileState) (path : String) (done : List String) (h : List Call)
    → CanRemove env start
    → In path done
    → file env start path (removes done h) ≡ absent
removes-absent env start path [] h can i = absurd i
removes-absent env start path (p ∷ done) h can (inl e) =
    subst (λ q. file env start q (remove p ∷ removes done h) ≡ absent) e
      (file-remove env start p (removes done h) can)
removes-absent env start path (p ∷ done) h can (inr i) =
    kept_absent env start _ _ _ (removes-absent env start path done h can i)

module _ (env : Env) where
  abbrev IfMade : (P : String → Type 0) → Result String → Type 0
  IfMade P (ok path) = P path
  IfMade P (err e) = Unit

  -- Each temporary file that the history made.
  abbrev pub Temps : (P : String → Type 0) → List Call → Type 0
  Temps P [] = Unit
  Temps P (create_temp d p ∷ h) = IfMade P (env.reply h (create_temp d p)) × Temps P h
  Temps P (_ ∷ h) = Temps P h

  IfMade-weaken :
      {P Q : String → Type 0} (r : Result String)
      → ((path : String) → P path → Q path)
      → IfMade P r
      → IfMade Q r
  IfMade-weaken (ok path) k p = k path p
  IfMade-weaken (err e) k p = tt

  pub Temps-weaken :
      {P Q : String → Type 0} (h : List Call)
      → ((path : String) → P path → Q path)
      → Temps P h
      → Temps Q h
  Temps-weaken [] k t = tt
  Temps-weaken (create_temp d p ∷ h) k (r, t) =
      (IfMade-weaken (env.reply h (create_temp d p)) k r, Temps-weaken h k t)
  Temps-weaken (c ∷ h) k t = Temps-weaken h k t

  Temps-removes :
      (P : String → Type 0) (done : List String) (h : List Call)
      → Temps P h
      → Temps P (removes done h)
  Temps-removes P [] h t = t
  Temps-removes P (p ∷ done) h t = Temps-removes P done h t

  Temps-new :
      (P : String → Type 0) (new h : List Call) → All IsNotTemp new → Temps P h → Temps P (new ++ h)
  Temps-new P [] h n t = t
  Temps-new P (create_temp d p ∷ new) h n t = absurd n.0
  Temps-new P (c ∷ new) h n t = Temps-new P new h n.1 t

  abbrev pub Pending : List String → List Call → Type 0
  Pending names = Temps (λ path. In path names)

  -- The history ends with removals, of `done`; what was made before is among them or in `names`.
  pub record Swept (names : List String) (h : List Call) : Type 0 where
    done : List String
    body : List Call
    ends : h ≡ removes done body
    made : Temps (λ path. In path done ⊎ In path names) body

  pub Pending-Swept : (names : List String) (h : List Call) → Pending names h → Swept names h
  Pending-Swept names h t = record {
    done = [];
    body = h;
    ends = refl;
    made = Temps-weaken h (λ path. inr) t;
  }

  pub kept :
      {A : Type 0} (names : List String) (m : Prog Error A)
      → Emits IsStep m
      → Triple env (Pending names) m (λ _. Pending names) (Swept names)
  kept names m k = Triple-weaken _ (Pending-Swept names) m (
      Triple-Emits m (Emits-weaken IsStep-IsNotTemp m k)
        λ h h' g t. subst (Pending names) (sym g.grown) (Temps-new _ g.new h g.all t))

  -- The last step of a body.
  pub kept_last :
      {A : Type 0} (names : List String) (m : Prog Error A)
      → Emits IsStep m
      → Triple env (Pending names) m (λ _. Swept names) (Swept names)
  kept_last names m k =
      Triple-then (Swept names) _ _ m (λ a h. Pending-Swept names h) (kept names m k)

  module _ (dir pattern : String) (names : List String) where
    temp-Answered :
        (h : List Call) (r : Result String)
        → env.reply h (create_temp dir pattern) ≡ r
        → Pending names h
        → Answered (λ file. Pending (file ∷ names)) (Swept names) r (create_temp dir pattern ∷ h)
    temp-Answered h (ok file) e t = (
      subst (IfMade (λ path. In path (file ∷ names))) (sym e) (inl refl),
      Temps-weaken h (λ path. inr) t,
    )
    temp-Answered h (err x) e t =
        Pending-Swept names (create_temp dir pattern ∷ h)
          (subst (IfMade (λ path. In path names)) (sym e) tt, t)

    pub made_temp :
        Triple env
          (Pending names)
          (ask (create_temp dir pattern) >>= result)
          (λ file. Pending (file ∷ names))
          (Swept names)
    made_temp =
        Triple-check _ (Triple-ask (create_temp dir pattern) _ (λ h t. temp-Answered h _ refl t))

  move : {A B C : Type 0} → A ⊎ (B ⊎ C) → (B ⊎ A) ⊎ C
  move (inl a) = inl (inr a)
  move (inr (inl b)) = inl (inl b)
  move (inr (inr c)) = inr c

  Swept-remove :
      (path : String) (names : List String) (h : List Call)
      → Swept (path ∷ names) h
      → Swept names (remove path ∷ h)
  Swept-remove path names h s = record {
    done = path ∷ s.done;
    body = s.body;
    ends = ap (λ g. remove path ∷ g) s.ends;
    made = Temps-weaken s.body (λ p. move) s.made;
  }

  Post-removed :
      {A : Type 0} (path : String) (names : List String) (r : Outcome Error A) (h : List Call)
      → Post (λ _. Swept (path ∷ names)) (Swept (path ∷ names)) r h
      → Post (λ _. Swept names) (Swept names) r (remove path ∷ h)
  Post-removed path names (returns a) h s = Swept-remove path names h s
  Post-removed path names (fails e) h s = Swept-remove path names h s
  Post-removed path names (panics x) h s = Swept-remove path names h s

  -- What runs with the removal of the file deferred.
  pub removed :
      {A : Type 0} (path : String) (names : List String) (m : Prog Error A)
      → Triple env (Pending (path ∷ names)) m (λ _. Swept (path ∷ names)) (Swept (path ∷ names))
      → Triple env
          (Pending (path ∷ names))
          (deferring m (remove path))
          (λ _. Swept names)
          (Swept names)
  unfolding deferring
  removed path names m k = record {
    at = λ h t. Post-removed path names (m env h).0 (m env h).1 (k.at h t);
  }

  -- No temporary file that the history made is there at its end.
  abbrev pub IsClean : (start : String → FileState) → List Call → Type 0
  IsClean start h = Temps (λ path. file env start path h ≡ absent) h

  or_none : {A : Type 0} → A ⊎ ⊥ → A
  or_none (inl a) = a
  or_none (inr b) = absurd b

  Swept-IsClean :
      (start : String → FileState) (h : List Call)
      → CanRemove env start
      → Swept [] h
      → IsClean start h
  Swept-IsClean start h can s = subst (IsClean start) (sym s.ends) (
      Temps-removes _ s.done s.body (
        Temps-weaken s.body (λ path i. removes-absent env start path s.done s.body can (or_none i))
          s.made))

  pub clean :
      {A : Type 0} (start : String → FileState) (m : Prog Error A) (h : List Call)
      → CanRemove env start
      → Triple env (Pending []) m (λ _. Swept []) (Swept [])
      → Pending [] h
      → IsClean start (m env h).1
  clean start m h can k t =
      Swept-IsClean start (m env h).1 can (Post-every (Swept []) (m env h).0 (m env h).1 (k.at h t))
