-- ===== src/Command/HostNames/Local.antt =====
-- pkg/command/service_token.go: what `localHostnames` returns.
use service_discover.Common.{String, List, [], ◌∷◌, ◌++◌, ◌≡◌, map, refl, inl, inr, In}
use service_discover.Errors.{Error, Result, ok, err}
use service_discover.World.{Call, Env, hostname, lookup_addr, lookup_cname, lookup_host}
use service_discover.Prog.{Outcome, returns, fails, panics, running, continue, pure}
use service_discover.Command.HostNames.{
  names_of_addresses, local_hostnames, with_cname, without_dot, compact, sort,
}
use service_discover.Command.HostNames.Sorted.{IsIncreasing, compact-sort-IsIncreasing}

In-append : (a : String) (xs ys : List String) → In a xs → In a (xs ++ ys)
In-append a [] ys i = absurd i
In-append a (x ∷ xs) ys (inl e) = inl e
In-append a (x ∷ xs) ys (inr i) = inr (In-append a xs ys i)

-- A list with a name in it is what comes out.
abbrev Gives : (a : String) → Outcome Error (List String) → Type 0
Gives a (returns names) = In a names
Gives a (fails e) = ⊥
Gives a (panics s) = ⊥

module _ (env : Env) (a : String) where
  names_of_addresses-Gives :
      (addrs names : List String) (h : List Call)
      → In a names
      → Gives a (names_of_addresses addrs names env h).0
  unfolding names_of_addresses running
  names_of_addresses-Gives [] names h i = i
  names_of_addresses-Gives (addr ∷ addrs) names h i =
      names_of_addresses-Gives addrs (names ++ map without_dot (env.reply h (lookup_addr addr)))
        (lookup_addr addr ∷ h) (In-append a names _ i)

  -- The names are the host's: its own among them, sorted and each once.
  abbrev pub AreNames : Outcome Error (List String) → Type 0
  AreNames (returns names) = IsIncreasing names × In a names
  AreNames (fails e) = ⊥
  AreNames (panics s) = ⊥

  sorted-AreNames :
      (r : Outcome Error (List String)) (h : List Call)
      → Gives a r
      → AreNames (continue r (λ names. pure (compact (sort names))) env h).0
  unfolding running
  sorted-AreNames (returns names) h i =
      let sorted = compact-sort-IsIncreasing names in (sorted.0, (sorted.1 a).1 i)
  sorted-AreNames (fails e) h i = absurd i
  sorted-AreNames (panics s) h i = absurd i

  with_cname-In : (r : Result String) → In a (with_cname a r)
  with_cname-In (ok cname) = inl refl
  with_cname-In (err e) = inl refl

  -- Where the host has a name, `localHostnames` returns a list with that name in it, in which each
  -- name stands before all that follow and is none of them, whatever the look-ups of the other names
  -- answer. It does not fail.
  pub local_hostnames-AreNames :
      (h : List Call) → env.reply h hostname ≡ ok a → AreNames (local_hostnames env h).0
  unfolding local_hostnames running
  local_hostnames-AreNames h e = rw e (
      sorted-AreNames _ _ (
        names_of_addresses-Gives (env.reply (lookup_cname a ∷ hostname ∷ h) (lookup_host a)) _
          (lookup_host a ∷ lookup_cname a ∷ hostname ∷ h)
          (with_cname-In (env.reply (hostname ∷ h) (lookup_cname a)))))
