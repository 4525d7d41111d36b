-- ===== src/Server/Bootstrap/Interleaving.antt =====
-- cmd/server/command/setup/firstsetup.go: the goroutine of `createACLBootstrapToken` beside its
-- `select`, in every order of their steps. The channel holds one result, and so does the ticker's
-- channel one tick; a ticker that is stopped sends no more, but what it sent can still be taken.
pub mod Invariant
pub mod Sequential
use service_discover.Common.{
  String, Bool, true, false, Option, none, some, List, [], ◌∷◌, ◌++◌, ◌≡◌, ◌⊎◌, inl, inr, refl, All,
}
use service_discover.Errors.{Result}
use service_discover.Server.Bootstrap.{sent}

-- Where the goroutine is: at the ticker, in its command, at the send of a result, or behind it.
pub data Goroutine : Type 0 where
  waits : Goroutine
  commands : Goroutine
  sends : Result String → Goroutine
  exits : Goroutine

-- Where the `select` is. One that has given up keeps the answers that there were at that time.
pub data Select : Type 0 where
  selects : Select
  receives : Result String → Select
  gives_up : (seen : List (Result String)) → Select

-- The state of both; `ran` has the answers of the commands, in their order.
pub record State : Type 0 where
  pub goroutine : Goroutine
  pub select : Select
  pub channel : Option (Result String)
  pub ticked : Bool
  pub stopped : Bool
  pub ran : List (Result String)

-- The goroutine behind a command: it polls again, or has a result to send.
abbrev pub behind : Option (Result String) → Goroutine
behind none = waits
behind (some r) = sends r

pub data Step (s : State) : State → Type 0 where
  fires : s.stopped ≡ false → Step s (record s { ticked = true })
  ticks :
      s.goroutine ≡ waits
      → s.ticked ≡ true
      → Step s (record s { goroutine = commands; ticked = false })
  answers :
      (a : Result String)
      → s.goroutine ≡ commands
      → Step s (record s { goroutine = behind (sent a); ran = s.ran ++ a ∷ [] })
  puts :
      (r : Result String)
      → s.goroutine ≡ sends r
      → s.channel ≡ none
      → Step s (record s { goroutine = exits; channel = some r })
  takes :
      (r : Result String)
      → s.select ≡ selects
      → s.channel ≡ some r
      → Step s (record s { select = receives r; channel = none; stopped = true })
  times_out : s.select ≡ selects → Step s (record s { select = gives_up s.ran; stopped = true })

abbrev pub started : State
started = record {
  goroutine = waits;
  select = selects;
  channel = none;
  ticked = false;
  stopped = false;
  ran = [];
}

pub data Reach : State → Type 0 where
  start : Reach started
  later : {s t : State} → Reach s → Step s t → Reach t

-- An answer that makes the goroutine poll again.
abbrev pub IsRetried : Result String → Type 0
IsRetried a = sent a ≡ none

-- The last command had a result, and those before it had none.
pub record Finished (r : Result String) (ran : List (Result String)) : Type 0 where
  pub before : List (Result String)
  pub last : Result String
  pub split : ran ≡ before ++ last ∷ []
  pub retried : All IsRetried before
  pub has : sent last ≡ some r

abbrev pub HasNothing : Select → Type 0
HasNothing (receives r) = ⊥
HasNothing _ = Unit

-- What is known of the channel, of the `select` and of the answers, for each place of the goroutine.
abbrev pub Placed : Goroutine → Select → Option (Result String) → List (Result String) → Type 0
Placed waits m c ran = All IsRetried ran × (c ≡ none) × HasNothing m
Placed commands m c ran = All IsRetried ran × (c ≡ none) × HasNothing m
Placed (sends r) m c ran = Finished r ran × (c ≡ none) × HasNothing m
Placed exits m c ran =
    (r : Result String) × (Finished r ran
      × (((c ≡ some r) × HasNothing m) ⊎ ((c ≡ none) × (m ≡ receives r))))

-- The answers that there were when the `select` gave up are the first ones.
abbrev pub Seen : Select → List (Result String) → Type 0
Seen (gives_up seen) ran = (new : List (Result String)) × (ran ≡ seen ++ new)
Seen _ ran = Unit

pub record Inv (s : State) : Type 0 where
  pub placed : Placed s.goroutine s.select s.channel s.ran
  pub seen : Seen s.select s.ran
