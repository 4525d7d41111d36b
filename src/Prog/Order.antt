-- ===== src/Prog/Order.antt =====
-- What has to happen before what in a history: a call that is not free comes behind an event.
use service_discover.Common.{List, [], ◌∷◌, ◌++◌, ◌⊎◌, inl, inr, sym, subst, All}
use service_discover.World.{Call, Env}
use service_discover.Prog.{Prog, Outcome, returns, fails, panics}
use service_discover.Prog.Emits.{Emits, Emits-weaken}
use service_discover.Prog.Triple.{Triple, Post, Triple-Emits, Triple-weaken}

-- What every call satisfies.
abbrev pub IsAny : Call → Type 0
IsAny _ = Unit

pub IsAny-Emits : {P : Call → Type 0} {E A : Type 0} (m : Prog E A) → Emits P m → Emits IsAny m
IsAny-Emits m k = Emits-weaken (λ c k. tt) m k

-- `Event before c`: the call `c` behind those, with its answer, is the event.
module _ (IsFree : Call → Type 0) (Event : (before : List Call) → Call → Type 0) where
  abbrev pub Happened : List Call → Type 0
  Happened [] = ⊥
  Happened (c ∷ h) = Event h c ⊎ Happened h

  -- Each call of the history is free, or the event happened before it.
  abbrev pub Ordered : List Call → Type 0
  Ordered [] = Unit
  Ordered (c ∷ h) = (IsFree c ⊎ Happened h) × Ordered h

  abbrev pub OrderedHappened : List Call → Type 0
  OrderedHappened h = Ordered h × Happened h

  Ordered-new : (new h : List Call) → All IsFree new → Ordered h → Ordered (new ++ h)
  Ordered-new [] h k o = o
  Ordered-new (c ∷ new) h (k, ks) o = (inl k, Ordered-new new h ks o)

  OrderedHappened-new : (new h : List Call) → OrderedHappened h → OrderedHappened (new ++ h)
  OrderedHappened-new [] h o = o
  OrderedHappened-new (c ∷ new) h o =
      let (ordered, happened) = OrderedHappened-new new h o in
      ((inr happened, ordered), inr happened)

  module _ (env : Env) {E A : Type 0} where
    -- Before the event, and behind it.
    pub before : (m : Prog E A) → Emits IsFree m → Triple env Ordered m (λ _. Ordered) Ordered
    before m k =
        Triple-Emits m k (λ h h' g o. subst Ordered (sym g.grown) (Ordered-new g.new h g.all o))

    pub behind :
        (m : Prog E A) → Emits IsAny m → Triple env OrderedHappened m (λ _. OrderedHappened) Ordered
    behind m k =
        Triple-weaken (λ _. OrderedHappened) (λ h o. o.0) m
          (Triple-Emits m k
            (λ h h' g o. subst OrderedHappened (sym g.grown) (OrderedHappened-new g.new h o)))

  pub Post-Ordered :
      {E A : Type 0} (r : Outcome E A) (h : List Call)
      → Post (λ _. OrderedHappened) Ordered r h
      → Ordered h
  Post-Ordered (returns a) h o = o.0
  Post-Ordered (fails e) h o = o
  Post-Ordered (panics s) h o = o
