-- ===== src/Prog/Emits.antt =====
-- Which calls a program can make: one rule for each way to build a program.
use service_discover.Common.{
  String, List, [], ◌∷◌, ◌++◌, ◌≡◌, refl, Bool, true, false, if◌then◌else◌, Option, none, some, All,
  All-append, sym, ◌∙◌, ap,
}
use mathlib.Core.List.{append_assoc}
use service_discover.Errors.{Error, Result, ok, err}
use service_discover.World.{Call, Env}
use service_discover.Prog.{
  Outcome, returns, fails, panics, Prog, ask, pure, fail, panic, lift, continue, ◌>>=◌, handle,
  on_error, either, maybe, deferring, finally, result,
}

-- The calls behind `h` in `h'` all satisfy `P`.
pub record Grows (P : Call → Type 0) (h h' : List Call) : Type 0 where
  pub new : List Call
  pub grown : h' ≡ new ++ h
  pub all : All P new

-- Whatever the environment and the history, the program makes only calls that satisfy `P`.
pub record Emits {E A : Type 0} (P : Call → Type 0) (m : Prog E A) : Type 0 where
  pub at : (env : Env) (h : List Call) → Grows P h (m env h).1

module _ {P : Call → Type 0} where
  pub Grows-refl : (h : List Call) → Grows P h h
  Grows-refl h = record { new = []; grown = refl; all = tt }

  pub Grows-trans : {h₁ h₂ h₃ : List Call} → Grows P h₁ h₂ → Grows P h₂ h₃ → Grows P h₁ h₃
  Grows-trans {h₁} a b = record {
    new = b.new ++ a.new;
    grown = b.grown ∙ ap (λ h. b.new ++ h) a.grown ∙ sym (append_assoc b.new a.new h₁);
    all = All-append P b.new a.new b.all a.all;
  }

  pub Grows-one : (c : Call) (h : List Call) → P c → Grows P h (c ∷ h)
  Grows-one c h p = record { new = c ∷ []; grown = refl; all = (p, tt) }

module _ {P Q : Call → Type 0} (weaken : (c : Call) → P c → Q c) where
  All-weaken : (cs : List Call) → All P cs → All Q cs
  All-weaken [] k = tt
  All-weaken (c ∷ cs) (p, k) = (weaken c p, All-weaken cs k)

  pub Emits-weaken : {E A : Type 0} (m : Prog E A) → Emits P m → Emits Q m
  Emits-weaken m k = record {
    at = λ env h.
        let g = k.at env h in record { new = g.new; grown = g.grown; all = All-weaken g.new g.all };
  }

pub Emits-ask : {E : Type 0} {P : Call → Type 0} (c : Call) → P c → Emits P (ask {E = E} c)
unfolding ask
Emits-ask c p = record { at = λ env h. Grows-one c h p }

module _ {E A : Type 0} {P : Call → Type 0} where
  pub Emits-pure : (a : A) → Emits {E = E} P (pure a)
  unfolding pure
  Emits-pure a = record { at = λ env h. Grows-refl h }

  pub Emits-fail : (e : E) → Emits {A = A} P (fail e)
  unfolding fail
  Emits-fail e = record { at = λ env h. Grows-refl h }

  pub Emits-panic : (s : String) → Emits {E = E} {A = A} P (panic s)
  unfolding panic
  Emits-panic s = record { at = λ env h. Grows-refl h }

  pub Emits-lift : (r : Outcome E A) → Emits P (lift r)
  unfolding lift
  Emits-lift r = record { at = λ env h. Grows-refl h }

  pub Emits-if : (b : Bool) (m n : Prog E A) → Emits P m → Emits P n → Emits P (if b then m else n)
  Emits-if true m n km kn = km
  Emits-if false m n km kn = kn

  -- Each branch knows how the test came out.
  pub Emits-if_known :
      (b : Bool) (m n : Prog E A)
      → (b ≡ true → Emits P m)
      → (b ≡ false → Emits P n)
      → Emits P (if b then m else n)
  Emits-if_known true m n km kn = km refl
  Emits-if_known false m n km kn = kn refl

  pub Emits-deferring : (m : Prog E A) (c : Call) → P c → Emits P m → Emits P (deferring m c)
  unfolding deferring
  Emits-deferring m c p k = record {
    at = λ env h. Grows-trans (k.at env h) (Grows-one c (m env h).1 p);
  }

pub Emits-finally :
    {E F A : Type 0} {P : Call → Type 0} (m : Prog E A) (cleanup : Prog F (Unit {0}))
    → Emits P m
    → Emits P cleanup
    → Emits P (finally m cleanup)
unfolding finally
Emits-finally m cleanup k l = record {
  at = λ env h. Grows-trans (k.at env h) (l.at env (m env h).1);
}

module _ {E A B : Type 0} {P : Call → Type 0} where
  pub Emits-either :
      (r : Result A) (f : A → Prog E B) (g : Error → Prog E B)
      → ((a : A) → Emits P (f a))
      → ((e : Error) → Emits P (g e))
      → Emits P (either r f g)
  Emits-either (ok a) f g kf kg = kf a
  Emits-either (err e) f g kf kg = kg e

  pub Emits-maybe :
      (o : Option A) (m : Prog E B) (f : A → Prog E B)
      → Emits P m
      → ((a : A) → Emits P (f a))
      → Emits P (maybe o m f)
  Emits-maybe none m f km kf = km
  Emits-maybe (some a) m f km kf = kf a

  Grows-continue :
      (r : Outcome E A) (f : A → Prog E B) (env : Env) (h : List Call)
      → ((a : A) → Emits P (f a))
      → Grows P h (continue r f env h).1
  Grows-continue (returns a) f env h k = (k a).at env h
  Grows-continue (fails e) f env h k = Grows-refl h
  Grows-continue (panics s) f env h k = Grows-refl h

  pub Emits-bind :
      (m : Prog E A) (f : A → Prog E B) → Emits P m → ((a : A) → Emits P (f a)) → Emits P (m >>= f)
  unfolding ◌>>=◌
  Emits-bind m f km kf = record {
    at = λ env h. Grows-trans (km.at env h) (Grows-continue (m env h).0 f env (m env h).1 kf);
  }

module _ {E F A : Type 0} {P : Call → Type 0} where
  Grows-handle :
      (r : Outcome E A) (f : E → Prog F A) (env : Env) (h : List Call)
      → ((e : E) → Emits P (f e))
      → Grows P h (handle f r env h).1
  Grows-handle (returns a) f env h k = Grows-refl h
  Grows-handle (fails e) f env h k = (k e).at env h
  Grows-handle (panics s) f env h k = Grows-refl h

  pub Emits-on_error :
      (m : Prog E A) (f : E → Prog F A)
      → Emits P m
      → ((e : E) → Emits P (f e))
      → Emits P (on_error m f)
  unfolding on_error
  Emits-on_error m f km kf = record {
    at = λ env h. Grows-trans (km.at env h) (Grows-handle (m env h).0 f env (m env h).1 kf);
  }

module _ {P : Call → Type 0} {A : Type 0} (m : Prog Error (Result A)) (k : Emits P m) where
  pub check-Emits : Emits P (m >>= result)
  check-Emits = Emits-bind m result k (λ r. Emits-lift _)

  pub try-Emits : (f : Error → Error) → Emits P (on_error (m >>= result) (λ e. fail (f e)))
  try-Emits f = Emits-on_error _ _ check-Emits (λ e. Emits-fail (f e))

module _ {P : Call → Type 0} {A : Type 0} (m : Prog Error A) (k : Emits P m) where
  pub mapped-Emits : (f : Error → Error) → Emits P (on_error m (λ e. fail (f e)))
  mapped-Emits f = Emits-on_error _ _ k (λ e. Emits-fail (f e))

pub ruleset emits_rules = (
  Emits-ask, Emits-pure, Emits-fail, Emits-panic, Emits-lift, Emits-if, Emits-deferring, Emits-bind,
  Emits-on_error, Emits-either, Emits-maybe, Emits-finally,
)
