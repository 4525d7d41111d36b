-- ===== src/Prog.antt =====
-- Go functions that call the world. A `Prog` runs in an environment from a history of calls, the
-- latest first, and ends by returning, by failing with an error, or by a panic. `do` is the chain
-- of `if err != nil { return err }`.
pub mod Emits
pub mod Ends
pub mod Triple
pub mod Order
pub mod Files
use service_discover.Common.{String, List, ◌∷◌, Option, none, some}
use service_discover.Errors.{Error, Result, ok, err}
use service_discover.World.{Call, Answer, Env}

pub data Outcome (E A : Type 0) : Type 0 where
  returns : A → Outcome E A
  fails : E → Outcome E A
  panics : String → Outcome E A

-- `E` is the type of the error results: `Error`, or the daemon's error with an exit code.
abbrev pub Prog : Type 0 → Type 0 → Type 0
Prog E A = Env → List Call → Outcome E A × List Call

-- A call of the world.
unfoldable pub ask : {E : Type 0} (c : Call) → Prog E (Answer c)
ask c env h = (returns (env.reply h c), c ∷ h)

module _ {E A : Type 0} where
  unfoldable pub pure : A → Prog E A
  pure a env h = (returns a, h)

  unfoldable pub fail : E → Prog E A
  fail e env h = (fails e, h)

  unfoldable pub panic : String → Prog E A
  panic s env h = (panics s, h)

  -- What calls nothing.
  unfoldable pub lift : Outcome E A → Prog E A
  lift r env h = (r, h)

module _ {E A B : Type 0} where
  abbrev pub continue : Outcome E A → (A → Prog E B) → Prog E B
  continue (returns a) f env h = f a env h
  continue (fails e) f env h = (fails e, h)
  continue (panics s) f env h = (panics s, h)

  infixl 5 ◌>>=◌
  unfoldable pub ◌>>=◌ : Prog E A → (A → Prog E B) → Prog E B
  ◌>>=◌ m f env h = let (r, h') = m env h in continue r f env h'

module _ {E B : Type 0} where
  infixl 5 ◌>>◌
  abbrev pub ◌>>◌ : Prog E (Unit {0}) → Prog E B → Prog E B
  m >> k = m >>= λ _. k

abbrev pub outcome_of : {A : Type 0} → Result A → Outcome Error A
outcome_of (ok a) = returns a
outcome_of (err e) = fails e

-- `x, err := ...; if err != nil { return err }` for a computed result.
abbrev pub result : {A : Type 0} → Result A → Prog Error A
result r = lift (outcome_of r)

-- The same for the answer of a call.
abbrev pub check : {A : Type 0} → Prog Error (Result A) → Prog Error A
check m = m >>= result

module _ {E A B : Type 0} where
  -- A split on a result, and on a value that may be missing.
  abbrev pub either : Result A → (A → Prog E B) → (Error → Prog E B) → Prog E B
  either (ok a) f g = f a
  either (err e) f g = g e

  abbrev pub maybe : Option A → Prog E B → (A → Prog E B) → Prog E B
  maybe none m f = m
  maybe (some a) m f = f a

-- `_ = f()`
abbrev pub ignore : Prog Error (Result (Unit {0})) → Prog Error (Unit {0})
ignore m = m >>= λ _. pure tt

module _ {E F A : Type 0} where
  abbrev pub handle : (E → Prog F A) → Outcome E A → Prog F A
  handle f (returns a) env h = (returns a, h)
  handle f (fails e) env h = f e env h
  handle f (panics s) env h = (panics s, h)

  -- `if err != nil { ... }` around a call
  unfoldable pub on_error : Prog E A → (E → Prog F A) → Prog F A
  on_error m f env h = let (r, h') = m env h in handle f r env h'

  -- `if err != nil { return f(err) }`
  abbrev pub map_error : Prog E A → (E → F) → Prog F A
  map_error m f = on_error m (λ e. fail (f e))

-- `defer cleanup()`: it runs also behind an error and behind a panic, and its result is dropped.
unfoldable pub deferring : {E A : Type 0} → Prog E A → Call → Prog E A
deferring m c env h = let (r, h') = m env h in (r, c ∷ h')

-- `defer func() { _ = cleanup() }()` where the cleanup makes several calls.
unfoldable pub finally : {E F A : Type 0} → Prog E A → Prog F (Unit {0}) → Prog E A
finally m cleanup env h = let (r, h') = m env h in (r, (cleanup env h').1)

-- To unfold this is to unfold what programs are built from.
unfoldable pub running : Unit {0}
unfolding ask pure fail panic lift ◌>>=◌ on_error deferring finally
running = tt
