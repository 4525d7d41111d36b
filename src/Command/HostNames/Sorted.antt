-- ===== src/Command/HostNames/Sorted.antt =====
-- pkg/command/service_token.go: what `slices.Sort` and `slices.Compact` leave of the names.
use service_discover.Common.{
  String, true, List, [], ◌∷◌, ◌≡◌, ◌≢◌, ◌⊎◌, ◌↔◌, inl, inr, sym, ◌∙◌, subst, In, Bool-cases,
  is-cases,
}
use service_discover.Command.HostNames.{is_before, insert_sorted, sort, compact}
use service_discover.Command.HostNames.Order.{is_before_total, is_before_trans, is_before_antisym}

abbrev Le : String → String → Type 0
Le s t = is_before s t ≡ true

-- Each name stands before the next one.
abbrev Leads : (R : String → String → Type 0) → String → List String → Type 0
Leads R s [] = Unit
Leads R s (t ∷ ts) = R s t

abbrev Chain : (R : String → String → Type 0) → List String → Type 0
Chain R [] = Unit
Chain R (s ∷ ts) = Leads R s ts × Chain R ts

-- Each name stands before all that follow, and is none of them.
abbrev pub IsIncreasing : List String → Type 0
IsIncreasing [] = Unit
IsIncreasing (s ∷ ts) =
    ((t : String) → In t ts → (is_before s t ≡ true) × (s ≢ t)) × IsIncreasing ts

insert-Leads :
    (s t : String) (ts : List String) → Leads Le t ts → Le t s → Leads Le t (insert_sorted s ts)
unfolding insert_sorted
insert-Leads s t [] k e = e
insert-Leads s t (u ∷ us) k e = elim (Bool-cases (is_before s u)) [
  | inl b ↦ rw b e
  | inr b ↦ rw b k
]

insert-Chain : (s : String) (ts : List String) → Chain Le ts → Chain Le (insert_sorted s ts)
unfolding insert_sorted
insert-Chain s [] k = (tt, tt)
insert-Chain s (t ∷ ts) (l, k) = elim (Bool-cases (is_before s t)) [
  | inl b ↦ rw b (b, (l, k))
  | inr b ↦ rw b (insert-Leads s t ts l (is_before_total s t b), insert-Chain s ts k)
]

sort-Chain : (ss : List String) → Chain Le (sort ss)
unfolding sort
sort-Chain [] = tt
sort-Chain (s ∷ ss) = insert-Chain s (sort ss) (sort-Chain ss)

abbrev Lt : String → String → Type 0
Lt s t = Le s t × (s ≢ t)

-- The first name stays the first.
compact-Leads : (s t : String) (ts : List String) → Lt s t → Leads Lt s (compact (t ∷ ts))
unfolding compact
compact-Leads s t [] k = k
compact-Leads s t (u ∷ us) k = elim (is-cases t u) [
  | inl (e, b) ↦ rw b (compact-Leads s u us (subst (Lt s) e k))
  | inr (n, b) ↦ rw b k
]

compact-Chain : (ss : List String) → Chain Le ss → Chain Lt (compact ss)
unfolding compact
compact-Chain [] k = tt
compact-Chain (s ∷ []) k = (tt, tt)
compact-Chain (s ∷ t ∷ ts) (l, k) = elim (is-cases s t) [
  | inl (e, b) ↦ rw b (compact-Chain (t ∷ ts) k)
  | inr (n, b) ↦ rw b (compact-Leads s t ts (l, n), compact-Chain (t ∷ ts) k)
]

Lt_trans : (s t u : String) → Lt s t → Lt t u → Lt s u
Lt_trans s t u (e, n) (f, m) = (
  is_before_trans s t u e f,
  λ same. n (is_before_antisym s t e (subst (λ v. Le t v) (sym same) f)),
)

Lt_all :
    (s : String) (ts : List String) → Leads Lt s ts → Chain Lt ts → (t : String) → In t ts → Lt s t
Lt_all s [] l k t i = absurd i
Lt_all s (u ∷ us) l k t (inl e) = subst (Lt s) e l
Lt_all s (u ∷ us) l (m, k) t (inr i) = Lt_trans s u t l (Lt_all u us m k t i)

Chain-IsIncreasing : (ts : List String) → Chain Lt ts → IsIncreasing ts
Chain-IsIncreasing [] k = tt
Chain-IsIncreasing (t ∷ ts) (l, k) = (Lt_all t ts l k, Chain-IsIncreasing ts k)

swap_second : {A B C : Type 0} → A ⊎ (B ⊎ C) → B ⊎ (A ⊎ C)
swap_second (inl a) = inr (inl a)
swap_second (inr (inl b)) = inl b
swap_second (inr (inr c)) = inr (inr c)

either : {A B C : Type 0} → (A → C) → (B → C) → A ⊎ B → C
either f g (inl a) = f a
either f g (inr b) = g b

under : {A B C : Type 0} → (B → C) → A ⊎ B → A ⊎ C
under f (inl a) = inl a
under f (inr b) = inr (f b)

module _ (a : String) where
  -- The two lists both have the name, or neither has.
  record Same (xs ys : List String) : Type 0 where
    forth : In a xs → In a ys
    back : In a ys → In a xs

  Same-refl : (xs : List String) → Same xs xs
  Same-refl xs = record { forth = λ i. i; back = λ i. i }

  Same-cons : (s : String) {xs ys : List String} → Same xs ys → Same (s ∷ xs) (s ∷ ys)
  Same-cons s k = record { forth = under k.forth; back = under k.back }

  Same-trans : {xs ys zs : List String} → Same xs ys → Same ys zs → Same xs zs
  Same-trans k l = record { forth = λ i. l.forth (k.forth i); back = λ i. k.back (l.back i) }

  Same-swap : (s t : String) (ts : List String) → Same (t ∷ s ∷ ts) (s ∷ t ∷ ts)
  Same-swap s t ts = record { forth = swap_second; back = swap_second }

  Same-insert : (s : String) (ts : List String) → Same (insert_sorted s ts) (s ∷ ts)
  unfolding insert_sorted
  Same-insert s [] = Same-refl (s ∷ [])
  Same-insert s (t ∷ ts) = elim (Bool-cases (is_before s t)) [
    | inl b ↦ rw b (Same-refl (s ∷ t ∷ ts))
    | inr b ↦ rw b (Same-trans (Same-cons t (Same-insert s ts)) (Same-swap s t ts))
  ]

  Same-sort : (ss : List String) → Same (sort ss) ss
  unfolding sort
  Same-sort [] = Same-refl []
  Same-sort (s ∷ ss) = Same-trans (Same-insert s (sort ss)) (Same-cons s (Same-sort ss))

  -- A name that equals the next one.
  Same-drop : (s t : String) (ts : List String) → s ≡ t → Same (t ∷ ts) (s ∷ t ∷ ts)
  Same-drop s t ts e = record { forth = inr; back = either (λ same. inl (sym e ∙ same)) (λ i. i) }

  Same-compact : (ss : List String) → Same (compact ss) ss
  unfolding compact
  Same-compact [] = Same-refl []
  Same-compact (s ∷ []) = Same-refl (s ∷ [])
  Same-compact (s ∷ t ∷ ts) = elim (is-cases s t) [
    | inl (e, b) ↦ rw b (Same-trans (Same-compact (t ∷ ts)) (Same-drop s t ts e))
    | inr (n, b) ↦ rw b (Same-cons s (Same-compact (t ∷ ts)))
  ]

-- Sorting the names and compacting them gives exactly the names that were there, each of them once:
-- every name stands before all that follow, and is none of them.
pub compact-sort-IsIncreasing :
    (names : List String)
    → IsIncreasing (compact (sort names))
      × ((name : String) → In name (compact (sort names)) ↔ In name names)
compact-sort-IsIncreasing names = (
  Chain-IsIncreasing (compact (sort names)) (compact-Chain (sort names) (sort-Chain names)),
  λ name.
      let same = Same-trans name (Same-compact name (sort names)) (Same-sort name names) in
      (same.forth, same.back),
)
