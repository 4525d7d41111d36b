-- ===== src/Prog/Ends.antt =====
-- How a program can end, whatever the environment and the history: it returns a value that satisfies
-- one predicate, or fails with an error that satisfies another, and it does not panic.
use service_discover.Common.{List, Bool, true, false, if◌then◌else◌, some, none, Option}
use service_discover.Errors.{Error, Result, ok, err}
use service_discover.World.{Call, Env}
use service_discover.Prog.{
  Outcome, returns, fails, panics, Prog, ask, pure, fail, lift, continue, ◌>>=◌, handle, on_error,
  deferring, result, either, maybe,
}
use service_discover.Prog.Emits.{Emits, Grows, Grows-refl, Grows-trans}

abbrev pub EndsWell : {E A : Type 0} → (A → Type 0) → (E → Type 0) → Outcome E A → Type 0
EndsWell S Q (returns a) = S a
EndsWell S Q (fails e) = Q e
EndsWell S Q (panics s) = ⊥

pub record Ends {E A : Type 0} (S : A → Type 0) (Q : E → Type 0) (m : Prog E A) : Type 0 where
  pub at : (env : Env) (h : List Call) → EndsWell S Q (m env h).0

abbrev pub Any : {A : Type 0} → A → Type 0
Any a = Unit

abbrev pub Never : {A : Type 0} → A → Type 0
Never a = ⊥

pub Ends-ask : {E : Type 0} {Q : E → Type 0} (c : Call) → Ends Any Q (ask {E = E} c)
unfolding ask
Ends-ask c = record { at = λ env h. tt }

module _ {E A : Type 0} {S : A → Type 0} {Q : E → Type 0} where
  pub Ends-pure : (a : A) → S a → Ends S Q (pure a)
  unfolding pure
  Ends-pure a s = record { at = λ env h. s }

  pub Ends-fail : (e : E) → Q e → Ends S Q (fail e)
  unfolding fail
  Ends-fail e q = record { at = λ env h. q }

  pub Ends-lift : (r : Outcome E A) → EndsWell S Q r → Ends S Q (lift r)
  unfolding lift
  Ends-lift r k = record { at = λ env h. k }

  pub Ends-if :
      (b : Bool) (m n : Prog E A) → Ends S Q m → Ends S Q n → Ends S Q (if b then m else n)
  Ends-if true m n km kn = km
  Ends-if false m n km kn = kn

  pub Ends-deferring : (m : Prog E A) (c : Call) → Ends S Q m → Ends S Q (deferring m c)
  unfolding deferring
  Ends-deferring m c k = record { at = λ env h. k.at env h }

module _ {A : Type 0} {Q : Error → Type 0} where
  -- A computed result whose errors satisfy `Q`.
  pub Ends-result : (r : Result A) → ((e : Error) → Q e) → Ends Any Q (result r)
  unfolding lift
  Ends-result (ok a) q = record { at = λ env h. tt }
  Ends-result (err e) q = record { at = λ env h. q e }

module _ {E A B : Type 0} {T : B → Type 0} {Q : E → Type 0} where
  pub Ends-either :
      (r : Result A) (f : A → Prog E B) (g : Error → Prog E B)
      → ((a : A) → Ends T Q (f a))
      → ((e : Error) → Ends T Q (g e))
      → Ends T Q (either r f g)
  Ends-either (ok a) f g kf kg = kf a
  Ends-either (err e) f g kf kg = kg e

  pub Ends-maybe :
      (o : Option A) (m : Prog E B) (f : A → Prog E B)
      → Ends T Q m
      → ((a : A) → Ends T Q (f a))
      → Ends T Q (maybe o m f)
  Ends-maybe none m f km kf = km
  Ends-maybe (some a) m f km kf = kf a

module _ {E A B : Type 0} {S : A → Type 0} {T : B → Type 0} {Q : E → Type 0} where
  EndsWell-continue :
      (r : Outcome E A) (f : A → Prog E B) (env : Env) (h : List Call)
      → EndsWell S Q r
      → ((a : A) → S a → Ends T Q (f a))
      → EndsWell T Q (continue r f env h).0
  EndsWell-continue (returns a) f env h s k = (k a s).at env h
  EndsWell-continue (fails e) f env h q k = q
  EndsWell-continue (panics p) f env h w k = absurd w

  pub Ends-bind :
      (m : Prog E A) (f : A → Prog E B)
      → Ends S Q m
      → ((a : A) → S a → Ends T Q (f a))
      → Ends T Q (m >>= f)
  unfolding ◌>>=◌
  Ends-bind m f km kf = record {
    at = λ env h. EndsWell-continue (m env h).0 f env (m env h).1 (km.at env h) kf;
  }

module _ {E F A : Type 0} {S : A → Type 0} {Q : E → Type 0} {R : F → Type 0} where
  EndsWell-handle :
      (r : Outcome E A) (f : E → Prog F A) (env : Env) (h : List Call)
      → EndsWell S Q r
      → ((e : E) → Q e → Ends S R (f e))
      → EndsWell S R (handle f r env h).0
  EndsWell-handle (returns a) f env h s k = s
  EndsWell-handle (fails e) f env h q k = (k e q).at env h
  EndsWell-handle (panics p) f env h w k = absurd w

  pub Ends-on_error :
      (m : Prog E A) (f : E → Prog F A)
      → Ends S Q m
      → ((e : E) → Q e → Ends S R (f e))
      → Ends S R (on_error m f)
  unfolding on_error
  Ends-on_error m f km kf = record {
    at = λ env h. EndsWell-handle (m env h).0 f env (m env h).1 (km.at env h) kf;
  }

module _ {E F A : Type 0} {S : A → Type 0} {R : F → Type 0} where
  -- `if err != nil { return f(err) }`
  pub Ends-map_error :
      (Q : E → Type 0) (m : Prog E A) (f : E → F)
      → Ends S Q m
      → ((e : E) → Q e → R (f e))
      → Ends S R (on_error m (λ e. fail (f e)))
  Ends-map_error Q m f k q = Ends-on_error m _ k (λ e x. Ends-fail (f e) (q e x))

-- A call whose answer is an error or a value: every error can come.
pub Ends-check :
    {A : Type 0} {Q : Error → Type 0} (m : Prog Error (Result A))
    → Ends Any Q m
    → ((e : Error) → Q e)
    → Ends Any Q (m >>= result)
Ends-check m k q = Ends-bind m result k (λ r _. Ends-result r q)

pub ruleset ends_rules = (
  Ends-ask, Ends-pure, Ends-fail, Ends-if, Ends-deferring, Ends-either, Ends-maybe, Ends-bind,
  Ends-on_error,
)

module _ {E A B : Type 0} {P : Call → Type 0} {S : A → Type 0} (Q : E → Type 0) where
  Grows-continue :
      (r : Outcome E A) (f : A → Prog E B) (env : Env) (h : List Call)
      → EndsWell S Q r
      → ((a : A) → S a → Emits P (f a))
      → Grows P h (continue r f env h).1
  Grows-continue (returns a) f env h s k = (k a s).at env h
  Grows-continue (fails e) f env h s k = Grows-refl h
  Grows-continue (panics x) f env h s k = absurd s

  -- What runs behind a program knows what its result satisfies.
  pub Emits-Ends :
      (m : Prog E A) (f : A → Prog E B)
      → Emits P m
      → Ends S Q m
      → ((a : A) → S a → Emits P (f a))
      → Emits P (m >>= f)
  unfolding ◌>>=◌
  Emits-Ends m f km e kf = record {
    at = λ env h.
        Grows-trans (km.at env h) (Grows-continue (m env h).0 f env (m env h).1 (e.at env h) kf);
  }
