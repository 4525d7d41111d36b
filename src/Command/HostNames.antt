-- ===== src/Command/HostNames.antt =====
-- pkg/command/service_token.go: `localHostnames`, the names of this host.
pub mod Order
pub mod Sorted
pub mod Local
use service_discover.Common.{
  String, Bool, true, false, List, [], ◌∷◌, ◌++◌, map, ◌is◌, if◌then◌else◌,
}
use Prim.Native.String.{compare}
use Prim.Native.Nat.{Ordering}
use service_discover.Text.{trim_suffix}
use service_discover.Errors.{Error, Result, ok, err}
use service_discover.World.{hostname, lookup_cname, lookup_host, lookup_addr}
use service_discover.Prog.{Prog, ask, pure, either, ◌>>=◌}

-- The order of texts by their bytes.
abbrev pub is_before : (s t : String) → Bool
is_before s t = elim (compare s t) [ Ordering.gt ↦ false | _ ↦ true ]

unfoldable pub insert_sorted : String → List String → List String
insert_sorted s [] = s ∷ []
insert_sorted s (t ∷ ts) =
    let rest = insert_sorted s ts in if is_before s t then s ∷ t ∷ ts else t ∷ rest

-- `slices.Sort`
unfoldable pub sort : List String → List String
unfolding insert_sorted
sort [] = []
sort (s ∷ ss) = insert_sorted s (sort ss)

-- `slices.Compact`: one of each run of equal texts.
unfoldable pub compact : List String → List String
compact [] = []
compact (s ∷ []) = s ∷ []
compact (s ∷ t ∷ ts) = let rest = compact (t ∷ ts) in if s is t then rest else s ∷ rest

abbrev without_dot : String → String
without_dot name = trim_suffix name "."

-- The loops over the addresses and their names.
unfoldable pub names_of_addresses : List String → (names : List String) → Prog Error (List String)
names_of_addresses [] names = pure names
names_of_addresses (addr ∷ addrs) names = do
  pointers ← ask (lookup_addr addr)
  names_of_addresses addrs (names ++ map without_dot pointers)

-- `names` behind the look-up of the canonical name.
abbrev pub with_cname : (host : String) → Result String → List String
with_cname host (ok cname) = host ∷ without_dot cname ∷ []
with_cname host (err _) = host ∷ []

-- `localHostnames`
unfoldable pub local_hostnames : Prog Error (List String)
unfolding names_of_addresses sort compact
local_hostnames = do
  name ← ask hostname
  either name
      (λ host. do
        cname ← ask (lookup_cname host)
        addrs ← ask (lookup_host host)
        names ← names_of_addresses addrs (with_cname host cname)
        pure (compact (sort names)))
      (λ _. pure [])
