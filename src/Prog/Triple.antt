-- ===== src/Prog/Triple.antt =====
-- What a program does to a predicate on the history: if `P` holds before, `Q` holds behind a return,
-- and `F` behind an error or a panic.
use service_discover.Common.{
  List, ◌∷◌, Bool, true, false, if◌then◌else◌, Option, none, some, ◌≡◌, refl,
}
use service_discover.Errors.{Error, Result, ok, err}
use service_discover.World.{Call, Answer, Env}
use service_discover.Prog.{
  Outcome, returns, fails, panics, Prog, ask, pure, fail, continue, ◌>>=◌, handle, on_error, maybe,
  either, result, outcome_of, lift,
}
use service_discover.Prog.Emits.{Emits, Grows}
use service_discover.Prog.Ends.{Ends, EndsWell}

abbrev pub Post :
    {E A : Type 0}
    → (A → List Call → Type 0)
    → (List Call → Type 0)
    → Outcome E A
    → List Call
    → Type 0
Post Q F (returns a) h = Q a h
Post Q F (fails e) h = F h
Post Q F (panics s) h = F h

pub record Triple {E A : Type 0} (env : Env) (P : List Call → Type 0) (m : Prog E A)
    (Q : A → List Call → Type 0) (F : List Call → Type 0) : Type 0 where
  pub at : (h : List Call) → P h → Post Q F (m env h).0 (m env h).1

module _ {E A : Type 0} (P : List Call → Type 0) where
  Post-same : (r : Outcome E A) (h : List Call) → P h → Post (λ _. P) P r h
  Post-same (returns a) h p = p
  Post-same (fails e) h p = p
  Post-same (panics s) h p = p

  pub Post-every : (r : Outcome E A) (h : List Call) → Post (λ _. P) P r h → P h
  Post-every (returns a) h p = p
  Post-every (fails e) h p = p
  Post-every (panics s) h p = p

module _ {E A : Type 0} {env : Env} {P : List Call → Type 0} where
  -- A program whose calls keep a predicate.
  pub Triple-Emits :
      {N : Call → Type 0} (m : Prog E A)
      → Emits N m
      → ((h h' : List Call) → Grows N h h' → P h → P h')
      → Triple env P m (λ _. P) P
  Triple-Emits m k stable = record {
    at = λ h p. Post-same P (m env h).0 (m env h).1 (stable h (m env h).1 (k.at env h) p);
  }

module _ {E A : Type 0} {env : Env} {P F : List Call → Type 0} {Q : A → List Call → Type 0} where
  pub Triple-if :
      (b : Bool) (m n : Prog E A)
      → Triple env P m Q F
      → Triple env P n Q F
      → Triple env P (if b then m else n) Q F
  Triple-if true m n km kn = km
  Triple-if false m n km kn = kn

module _ {E A B : Type 0} {env : Env} {F : List Call → Type 0} {Q : A → List Call → Type 0}
    {R : B → List Call → Type 0} where
  Post-continue :
      (r : Outcome E A) (f : A → Prog E B) (h : List Call)
      → Post Q F r h
      → ((a : A) → Triple env (Q a) (f a) R F)
      → Post R F (continue r f env h).0 (continue r f env h).1
  Post-continue (returns a) f h q k = (k a).at h q
  Post-continue (fails e) f h q k = q
  Post-continue (panics s) f h q k = q

  pub Triple-bind :
      {P : List Call → Type 0} (m : Prog E A) (f : A → Prog E B)
      → Triple env P m Q F
      → ((a : A) → Triple env (Q a) (f a) R F)
      → Triple env P (m >>= f) R F
  unfolding ◌>>=◌
  Triple-bind m f km kf = record {
    at = λ h p. Post-continue (m env h).0 f (m env h).1 (km.at h p) kf;
  }

module _ {E A B : Type 0} {env : Env} {P F : List Call → Type 0} {R : B → List Call → Type 0} where
  pub Triple-maybe :
      (o : Option A) (m : Prog E B) (f : A → Prog E B)
      → Triple env P m R F
      → ((a : A) → Triple env P (f a) R F)
      → Triple env P (maybe o m f) R F
  Triple-maybe none m f km kf = km
  Triple-maybe (some a) m f km kf = kf a

module _ {E G A : Type 0} {env : Env} {F H : List Call → Type 0} {Q : A → List Call → Type 0} where
  Post-handle :
      (r : Outcome E A) (f : E → Prog G A) (h : List Call)
      → Post Q F r h
      → ((h : List Call) → F h → H h)
      → ((e : E) → Triple env F (f e) Q H)
      → Post Q H (handle f r env h).0 (handle f r env h).1
  Post-handle (returns a) f h q weaken k = q
  Post-handle (fails e) f h q weaken k = (k e).at h q
  Post-handle (panics s) f h q weaken k = weaken h q

  pub Triple-on_error :
      {P : List Call → Type 0} (m : Prog E A) (f : E → Prog G A)
      → Triple env P m Q F
      → ((h : List Call) → F h → H h)
      → ((e : E) → Triple env F (f e) Q H)
      → Triple env P (on_error m f) Q H
  unfolding on_error
  Triple-on_error m f km weaken kf = record {
    at = λ h p. Post-handle (m env h).0 f (m env h).1 (km.at h p) weaken kf;
  }

module _ {E A : Type 0} {F H : List Call → Type 0} (Q : A → List Call → Type 0)
    (weaken : (h : List Call) → F h → H h) where
  Post-weaken : (r : Outcome E A) (h : List Call) → Post Q F r h → Post Q H r h
  Post-weaken (returns a) h q = q
  Post-weaken (fails e) h q = weaken h q
  Post-weaken (panics s) h q = weaken h q

  pub Triple-weaken :
      {env : Env} {P : List Call → Type 0} (m : Prog E A) → Triple env P m Q F → Triple env P m Q H
  Triple-weaken {env = env} m k = record {
    at = λ h p. Post-weaken (m env h).0 (m env h).1 (k.at h p);
  }

module _ {E A : Type 0} (F : List Call → Type 0) (Q R : A → List Call → Type 0) where
  Post-then :
      (r : Outcome E A) (h : List Call)
      → ((a : A) (h : List Call) → Q a h → R a h)
      → Post Q F r h
      → Post R F r h
  Post-then (returns a) h k q = k a h q
  Post-then (fails e) h k q = q
  Post-then (panics s) h k q = q

  pub Triple-then :
      {env : Env} {P : List Call → Type 0} (m : Prog E A)
      → ((a : A) (h : List Call) → Q a h → R a h)
      → Triple env P m Q F
      → Triple env P m R F
  Triple-then {env = env} m k t = record {
    at = λ h p. Post-then (m env h).0 (m env h).1 k (t.at h p);
  }

module _ {E A : Type 0} (S : A → Type 0) (R : E → Type 0) (F : List Call → Type 0)
    (Q : A → List Call → Type 0) where
  Post-Ends :
      (r : Outcome E A) (h : List Call)
      → EndsWell S R r
      → Post Q F r h
      → Post (λ a h. S a × Q a h) F r h
  Post-Ends (returns a) h s q = (s, q)
  Post-Ends (fails e) h s q = q
  Post-Ends (panics p) h s q = q

  -- What is known of every result holds beside.
  pub Triple-Ends :
      {env : Env} {P : List Call → Type 0} (m : Prog E A)
      → Ends S R m
      → Triple env P m Q F
      → Triple env P m (λ a h. S a × Q a h) F
  Triple-Ends {env = env} m e k = record {
    at = λ h p. Post-Ends (m env h).0 (m env h).1 (e.at env h) (k.at h p);
  }

-- What is known beside the history can be taken as a hypothesis.
pub Triple-given :
    {E A : Type 0} {env : Env} {S : Type 0} {P F : List Call → Type 0} {Q : A → List Call → Type 0}
    (m : Prog E A)
    → (S → Triple env P m Q F)
    → Triple env (λ h. S × P h) m Q F
Triple-given m k = record { at = λ h p. (k p.0).at h p.1 }

-- The predicate behind an answer that can be an error.
abbrev pub Answered :
    {A : Type 0} → (A → List Call → Type 0) → (List Call → Type 0) → Result A → List Call → Type 0
Answered Q F (ok a) h = Q a h
Answered Q F (err e) h = F h

module _ {A : Type 0} (F : List Call → Type 0) (Q : A → List Call → Type 0) where
  Post-result : (r : Result A) (h : List Call) → Answered Q F r h → Post Q F (outcome_of r) h
  Post-result (ok a) h q = q
  Post-result (err e) h q = q

module _ {A : Type 0} {env : Env} {F : List Call → Type 0} {Q : A → List Call → Type 0} where
  pub Triple-check :
      {P : List Call → Type 0} (m : Prog Error (Result A))
      → Triple env P m (Answered Q F) F
      → Triple env P (m >>= result) Q F
  unfolding lift
  Triple-check m k = Triple-bind m result k (λ r. record { at = λ h q. Post-result F Q r h q })

pub Triple-ask :
    {E : Type 0} {env : Env} {P F : List Call → Type 0} (c : Call)
    (Q : Answer c → List Call → Type 0)
    → ((h : List Call) → P h → Q (env.reply h c) (c ∷ h))
    → Triple {E = E} env P (ask c) Q F
unfolding ask
Triple-ask c Q k = record { at = λ h p. k h p }

module _ {E A : Type 0} {env : Env} {F : List Call → Type 0} where
  pub Triple-pure : (a : A) (Q : A → List Call → Type 0) → Triple {E = E} env (Q a) (pure a) Q F
  unfolding pure
  Triple-pure a Q = record { at = λ h p. p }

  pub Triple-fail : (e : E) (Q : A → List Call → Type 0) → Triple {A = A} env F (fail e) Q F
  unfolding fail
  Triple-fail e Q = record { at = λ h p. p }

module _ {A : Type 0} {P F : List Call → Type 0} (weaken : (h : List Call) → P h → F h) where
  Post-lift :
      {E : Type 0} (r : Outcome E A) (h : List Call)
      → P h
      → Post (λ a h. (r ≡ returns a) × P h) F r h
  Post-lift (returns a) h p = (refl, p)
  Post-lift (fails e) h p = weaken h p
  Post-lift (panics s) h p = weaken h p

  -- What was computed is known behind it.
  pub Triple-lift :
      {E : Type 0} {env : Env} (r : Outcome E A)
      → Triple env P (lift r) (λ a h. (r ≡ returns a) × P h) F
  unfolding lift
  Triple-lift r = record { at = λ h p. Post-lift r h p }

  Post-known :
      (r : Result A) (h : List Call) → P h → Post (λ a h. (r ≡ ok a) × P h) F (outcome_of r) h
  Post-known (ok a) h p = (refl, p)
  Post-known (err e) h p = weaken h p

  pub Triple-known :
      {env : Env} (r : Result A) → Triple env P (result r) (λ a h. (r ≡ ok a) × P h) F
  unfolding lift
  Triple-known r = record { at = λ h p. Post-known r h p }

-- A program needs no more than that.
pub Triple-before :
    {E A : Type 0} {env : Env} {P P' F : List Call → Type 0} {Q : A → List Call → Type 0}
    (m : Prog E A)
    → ((h : List Call) → P' h → P h)
    → Triple env P m Q F
    → Triple env P' m Q F
Triple-before m k t = record { at = λ h p. t.at h (k h p) }

-- A test is known in its branches, and an answer decides which branch is taken.
module _ {A : Type 0} {env : Env} {P F : List Call → Type 0} {Q : A → List Call → Type 0} where
  pub Triple-if_known :
      (b : Bool) (m n : Prog Error A)
      → (b ≡ true → Triple env P m Q F)
      → (b ≡ false → Triple env P n Q F)
      → Triple env P (if b then m else n) Q F
  Triple-if_known true m n km kn = km refl
  Triple-if_known false m n km kn = kn refl

  pub Triple-either :
      {B : Type 0} (r : Result B) (f : B → Prog Error A) (g : Error → Prog Error A)
      → ((b : B) → Triple env P (f b) Q F)
      → ((e : Error) → Triple env P (g e) Q F)
      → Triple env P (either r f g) Q F
  Triple-either (ok b) f g kf kg = kf b
  Triple-either (err e) f g kf kg = kg e

pub Triple-any_result :
    {A : Type 0} {env : Env} {P : List Call → Type 0} (r : Result A)
    → Triple env P (result r) (λ _. P) P
unfolding lift
Triple-any_result (ok a) = record { at = λ h p. p }
Triple-any_result (err e) = record { at = λ h p. p }
