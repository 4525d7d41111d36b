-- ===== src/Server/Bootstrap/Interleaving/Invariant.antt =====
-- cmd/server/command/setup/firstsetup.go: what holds in every state that the goroutine and the `select`
-- reach.
use service_discover.Common.{
  String, Option, none, some, List, [], ◌∷◌, ◌++◌, ◌≡◌, inl, inr, refl, ap, subst, ◌∙◌, All-append,
}
use mathlib.Core.List.{append_assoc}
use service_discover.Errors.{Result}
use service_discover.Server.Bootstrap.{sent}
use service_discover.Server.Bootstrap.Interleaving.{
  Goroutine, waits, commands, sends, exits, Select, selects, receives, gives_up, State, behind,
  Step, fires, ticks, answers, puts, takes, times_out, Reach, start, later, IsRetried, Finished,
  Placed, Seen, Inv,
}

answers-Placed :
    (m : Select) (c : Option (Result String)) (ran : List (Result String)) (a : Result String)
    (o : Option (Result String))
    → sent a ≡ o
    → Placed commands m c ran
    → Placed (behind o) m c (ran ++ a ∷ [])
answers-Placed m c ran a none e (k, n, h) = (All-append IsRetried ran (a ∷ []) k (e, tt), n, h)
answers-Placed m c ran a (some r) e (k, n, h) =
    (record { before = ran; last = a; split = refl; retried = k; has = e }, n, h)

puts-Placed :
    (m : Select) (c : Option (Result String)) (ran : List (Result String)) (r : Result String)
    → Placed (sends r) m c ran
    → Placed exits m (some r) ran
puts-Placed m c ran r (k, e, n) = (r, (k, inl (refl, n)))

takes-Placed :
    (g : Goroutine) (m : Select) (c : Option (Result String)) (ran : List (Result String))
    (r : Result String)
    → m ≡ selects
    → c ≡ some r
    → Placed g m c ran
    → Placed g (receives r) none ran
takes-Placed waits m c ran r s e (k, n, h) = cc
takes-Placed commands m c ran r s e (k, n, h) = cc
takes-Placed (sends x) m c ran r s e (k, n, h) = cc
takes-Placed exits m c ran r s e (x, (k, inl (f, h))) =
    let same : x ≡ r = cc in (r, (subst (λ y. Finished y ran) same k, inr (refl, refl)))
takes-Placed exits m c ran r s e (x, (k, inr (f, h))) = cc

times_out-Placed :
    (g : Goroutine) (m : Select) (c : Option (Result String)) (ran seen : List (Result String))
    → m ≡ selects
    → Placed g m c ran
    → Placed g (gives_up seen) c ran
times_out-Placed waits m c ran seen s (k, n, h) = (k, n, tt)
times_out-Placed commands m c ran seen s (k, n, h) = (k, n, tt)
times_out-Placed (sends x) m c ran seen s (k, n, h) = (k, n, tt)
times_out-Placed exits m c ran seen s (x, (k, inl (f, h))) = (x, (k, inl (f, tt)))
times_out-Placed exits m c ran seen s (x, (k, inr (f, h))) = cc

answers-Seen :
    (m : Select) (ran : List (Result String)) (a : Result String)
    → Seen m ran
    → Seen m (ran ++ a ∷ [])
answers-Seen selects ran a k = tt
answers-Seen (receives r) ran a k = tt
answers-Seen (gives_up seen) ran a (new, e) =
    (new ++ a ∷ [], ap (λ l. l ++ a ∷ []) e ∙ append_assoc seen new (a ∷ []))

append_nil : (ran : List (Result String)) → ran ≡ ran ++ []
append_nil [] = refl
append_nil (a ∷ ran) = ap (λ l. a ∷ l) (append_nil ran)

Step-Inv : {s t : State} → Step s t → Inv s → Inv t
Step-Inv {s} (fires e) inv = record { placed = inv.placed; seen = inv.seen }
Step-Inv {s} (ticks e t) inv = record {
  placed = subst (λ g. Placed g s.select s.channel s.ran) e inv.placed;
  seen = inv.seen;
}
Step-Inv {s} (answers a e) inv = record {
  placed =
      answers-Placed s.select s.channel s.ran a (sent a) refl
        (subst (λ g. Placed g s.select s.channel s.ran) e inv.placed);
  seen = answers-Seen s.select s.ran a inv.seen;
}
Step-Inv {s} (puts r e c) inv = record {
  placed =
      puts-Placed s.select s.channel s.ran r
        (subst (λ g. Placed g s.select s.channel s.ran) e inv.placed);
  seen = inv.seen;
}
Step-Inv {s} (takes r e c) inv = record {
  placed = takes-Placed s.goroutine s.select s.channel s.ran r e c inv.placed;
  seen = tt;
}
Step-Inv {s} (times_out e) inv = record {
  placed = times_out-Placed s.goroutine s.select s.channel s.ran s.ran e inv.placed;
  seen = ([], append_nil s.ran);
}

pub Reach-Inv : {s : State} → Reach s → Inv s
Reach-Inv start = record { placed = (tt, refl, tt); seen = tt }
Reach-Inv (later r step) = Step-Inv step (Reach-Inv r)

sends-Placed :
    (g : Goroutine) (m : Select) (c : Option (Result String)) (ran : List (Result String))
    (r : Result String)
    → g ≡ sends r
    → Placed g m c ran
    → (c ≡ none) × Finished r ran
sends-Placed waits m c ran r e p = cc
sends-Placed commands m c ran r e p = cc
sends-Placed (sends x) m c ran r e (k, n, h) =
    let same : x ≡ r = cc in (n, subst (λ y. Finished y ran) same k)
sends-Placed exits m c ran r e p = cc

-- In every order of the steps, the send of the goroutine does not block, even where the `select` has
-- given up: wherever it is about to send a result, the channel is free. That result is the one of
-- the command that ran last, and no command that ran before had one, so that none runs behind one
-- that had a result.
pub Reach-sends :
    {s : State} (r : Result String)
    → Reach s
    → s.goroutine ≡ sends r
    → (s.channel ≡ none) × Finished r s.ran
Reach-sends {s} r reach e =
    sends-Placed s.goroutine s.select s.channel s.ran r e (Reach-Inv reach).placed
