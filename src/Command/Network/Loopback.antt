-- ===== src/Command/Network/Loopback.antt =====
-- pkg/command/common.go: `NonLoopbackInterfaces` removes the one loopback interface.
use service_discover.Common.{
  ℕ, suc, ◌+◌, ◌-◌, String, true, false, some, List, [], ◌∷◌, ◌++◌, ◌≡◌, ◌⊎◌, inl, inr, refl, sym,
  ap, ◌∙◌, subst, arith, All-append, length, get_elem?, set, take, All, if◌then◌else◌, leb,
  length-append,
}
use mathlib.Core.List.{append_assoc, append-nil, Perm}
use mathlib.Core.List.Perm
use native.Mathlib.Nat.{zero-add, add-zero, suc-add}
use service_discover.Text.{equal_fold}
use service_discover.Errors.{ok}
use service_discover.World.{Call, Env, net_interfaces}
use service_discover.Prog.{returns, running}
use service_discover.Command.Network.{drop_loopback, remove_at, non_loopback_interfaces}

-- An interface that is not the loopback one.
abbrev pub IsOuter : String → Type 0
IsOuter name = equal_fold name "lo" ≡ false

-- The reference: the outer interfaces, in their order.
abbrev pub outer : List String → List String
outer [] = []
outer (x ∷ xs) = if equal_fold x "lo" then outer xs else x ∷ outer xs

-- At most one interface is the loopback one.
abbrev pub AtMostOne : List String → Type 0
AtMostOne [] = Unit
AtMostOne (x ∷ xs) = (IsOuter x × AtMostOne xs) ⊎ ((equal_fold x "lo" ≡ true) × All IsOuter xs)

outer-All : (xs : List String) → All IsOuter xs → outer xs ≡ xs
outer-All [] k = refl
outer-All (x ∷ xs) (o, k) = rw o (ap (λ r. x ∷ r) (outer-All xs k))

get_elem?-append :
    (p : List String) (x : String) (q : List String) → get_elem? (p ++ x ∷ q) (length p) ≡ some x
get_elem?-append [] x q = refl
get_elem?-append (y ∷ p) x q = get_elem?-append p x q

set-append :
    (p : List String) (x y : String) (q : List String) → set (p ++ x ∷ q) (length p) y ≡ p ++ y ∷ q
set-append [] x y q = refl
set-append (z ∷ p) x y q = ap (λ r. z ∷ r) (set-append p x y q)

take_all : (xs : List String) → take (length xs) xs ≡ xs
take_all [] = refl
take_all (x ∷ xs) = ap (λ r. x ∷ r) (take_all xs)

take-append : (p q : List String) (n : ℕ) → take (length p + n) (p ++ q) ≡ p ++ take n q
take-append [] q n = rw zero-add
take-append (x ∷ p) q n = rw suc-add (ap (λ r. x ∷ r) (take-append p q n))

-- The last of a list that is not empty.
last_of : String → List String → String
last_of x [] = x
last_of x (y ∷ ys) = last_of y ys

last_lem : (x : String) (q : List String) → get_elem? (x ∷ q) (length q) ≡ some (last_of x q)
unfolding last_of
last_lem x [] = refl
last_lem x (y ∷ q) = last_lem y q

get_elem?-last :
    (p : List String) (x : String) (q : List String)
    → get_elem? (p ++ x ∷ q) (length p + length q) ≡ some (last_of x q)
get_elem?-last [] x q = rw zero-add (last_lem x q)
get_elem?-last (z ∷ p) x q = rw suc-add (get_elem?-last p x q)

-- The last name in front of the others is the list in another order.
last-perm : (x : String) (xs : List String) → Perm (take (length xs) (last_of x xs ∷ xs)) xs
unfolding last_of
last-perm x [] = Perm.refl []
last-perm x (y ∷ []) = Perm.refl (y ∷ [])
last-perm x (y ∷ z ∷ zs) =
    Perm.trans (Perm.swap y (last_of z zs) (take (length zs) (z ∷ zs)))
      (Perm.cons y (last-perm y (z ∷ zs)))

-- One round, over a name that stays and over one that goes.
round_outer :
    (n i len : ℕ) (array : List String) (x : String)
    → get_elem? array i ≡ some x
    → IsOuter x
    → drop_loopback (suc n) i array len ≡ drop_loopback n (suc i) array len
unfolding drop_loopback
round_outer n i len array x e o = rw (e, drop_loopback, o)

round_loopback :
    (n i len : ℕ) (array array' : List String) (x : String)
    → get_elem? array i ≡ some x
    → equal_fold x "lo" ≡ true
    → remove_at array len i ≡ some array'
    → drop_loopback (suc n) i array len ≡ drop_loopback n (suc i) array' (len - 1)
unfolding drop_loopback
round_loopback n i len array array' x e l k = rw (e, drop_loopback, l, k)

-- The rounds over names that stay.
skip :
    (n i len : ℕ) (p q r array : List String)
    → array ≡ p ++ (q ++ r)
    → i ≡ length p
    → All IsOuter q
    → drop_loopback (length q + n) i array len ≡ drop_loopback n (i + length q) array len
skip n i len p [] r array e f k = simp (zero-add, add-zero)
skip n i len p (x ∷ q) r array e f (o, k) =
    let found : get_elem? array i ≡ some x = rw (e, f) (get_elem?-append p x (q ++ r)) in
    let next : suc i ≡ length (p ++ x ∷ []) = omega (arith, f, length-append {0} p (x ∷ [])) in
    let behind : array ≡ (p ++ x ∷ []) ++ (q ++ r) = e ∙ sym (append_assoc p (x ∷ []) (q ++ r)) in
    rw suc-add (
      round_outer (length q + n) i len array x found o
      ∙ skip n (suc i) len (p ++ x ∷ []) q r array behind next k
      ∙ ap (λ j. drop_loopback n j array len) (omega arith))

-- The rounds to the end of the array.
skip_rest :
    (i len : ℕ) (p q array : List String)
    → array ≡ p ++ q
    → i ≡ length p
    → All IsOuter q
    → drop_loopback (length q) i array len ≡ returns (take len array)
skip_rest i len p q array e f k =
    ap (λ n. drop_loopback n i array len) (omega arith)
    ∙ skip 0 i len p q [] array (e ∙ ap (λ l. p ++ l) (sym (append-nil q))) f k
    ∙ done (i + length q)
  where
    done : (j : ℕ) → drop_loopback 0 j array len ≡ returns (take len array)
    done j = unfold drop_loopback in refl

-- The array without a loopback interface.
drop_loopback-outer :
    (xs : List String) → All IsOuter xs → drop_loopback (length xs) 0 xs (length xs) ≡ returns xs
drop_loopback-outer xs k = skip_rest 0 (length xs) [] xs xs refl refl k ∙ ap returns (take_all xs)

module _ (front : List String) (lo : String) (back : List String)
    (loops : equal_fold lo "lo" ≡ true) (outer_front : All IsOuter front)
    (outer_back : All IsOuter back) where
  abbrev whole : List String
  whole = front ++ lo ∷ back

  abbrev size : ℕ
  size = length front + suc (length back)

  -- The array once the last name stands in the place of the loopback one.
  abbrev moved : List String
  moved = front ++ last_of lo back ∷ back

  size_lem : length whole ≡ size
  size_lem = length-append front (lo ∷ back)

  last_found : get_elem? (take size whole) (size - 1) ≡ some (last_of lo back)
  last_found =
      let all : take size whole ≡ whole =
        subst (λ n. take n whole ≡ whole) size_lem (take_all whole) in
      let before : size - 1 ≡ length front + length back = omega arith in
      rw (all, before) (get_elem?-last front lo back)

  removed_at : remove_at whole size (length front) ≡ some moved
  unfolding remove_at
  removed_at =
      let inside : leb size (length front) ≡ false = ground arith in
      rw (last_found, remove_at, inside, set-append front lo (last_of lo back) back)

  dropped :
      drop_loopback (length whole) 0 whole (length whole)
      ≡ returns (front ++ take (length back) (last_of lo back ∷ back))
  dropped =
      let last : List String = last_of lo back ∷ [] in
      let next : suc (length front) ≡ length (front ++ last) =
        omega (arith, length-append {0} front last) in
      ap (λ n. drop_loopback n 0 whole n) size_lem
      ∙ skip (suc (length back)) 0 size [] front (lo ∷ back) whole refl refl outer_front
      ∙ ap (λ j. drop_loopback (suc (length back)) j whole size) (omega arith)
      ∙ round_loopback (length back) (length front) size whole moved lo
          (get_elem?-append front lo back) loops removed_at
      ∙ skip_rest (suc (length front)) (size - 1) (front ++ last) back moved
          (sym (append_assoc front last back)) next outer_back
      ∙ ap (λ n. returns (take n moved)) (omega arith)
      ∙ ap returns (take-append front (last_of lo back ∷ back) (length back))

outer-whole :
    (front : List String) (lo : String) (back : List String)
    → equal_fold lo "lo" ≡ true
    → All IsOuter front
    → All IsOuter back
    → outer (front ++ lo ∷ back) ≡ front ++ back
outer-whole [] lo back l k m = rw l (outer-All back m)
outer-whole (x ∷ front) lo back l (o, k) m =
    rw o (ap (λ r. x ∷ r) (outer-whole front lo back l k m))

-- The loop returns what the reference does, in another order.
Filters : List String → Type 0
Filters xs =
    (kept : List String) × ((drop_loopback (length xs) 0 xs (length xs) ≡ returns kept)
      × Perm kept (outer xs))

-- `front` are the names that were passed.
drop_loopback-Filters :
    (front xs : List String) → All IsOuter front → AtMostOne xs → Filters (front ++ xs)
unfolding Filters
drop_loopback-Filters front [] k a =
    let all : All IsOuter (front ++ []) = All-append IsOuter front [] k tt in
    (
      front ++ [],
      (
        drop_loopback-outer (front ++ []) all,
        rw (outer-All (front ++ []) all) (Perm.refl (front ++ [])),
      ),
    )
drop_loopback-Filters front (x ∷ xs) k (inl (o, a)) =
    subst Filters (append_assoc front (x ∷ []) xs)
      (drop_loopback-Filters (front ++ x ∷ []) xs (All-append IsOuter front (x ∷ []) k (o, tt)) a)
drop_loopback-Filters front (x ∷ xs) k (inr (l, a)) = (
  front ++ take (length xs) (last_of x xs ∷ xs),
  (
    dropped front x xs l k a,
    rw (outer-whole front x xs l k a) (Perm.append_left front (last-perm x xs)),
  ),
)

-- With at most one loopback interface `NonLoopbackInterfaces` returns all the others and no more,
-- each as often as it was there, in another order; it does not panic.
pub non_loopback_interfaces-perm-outer :
    (env : Env) (h : List Call) (networks : List String)
    → env.reply h net_interfaces ≡ ok networks
    → AtMostOne networks
    → (kept : List String) × (((non_loopback_interfaces env h).0 ≡ returns kept)
        × Perm kept (outer networks))
unfolding non_loopback_interfaces running Filters
non_loopback_interfaces-perm-outer env h networks e a =
    let (kept, (run, perm)) = drop_loopback-Filters [] networks tt a in (kept, (rw e run, perm))
