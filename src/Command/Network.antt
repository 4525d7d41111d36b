-- ===== src/Command/Network.antt =====
-- pkg/command/common.go: interfaces and addresses. An interface is its name, an address its text.
pub mod Loopback
pub mod Binding
use service_discover.Common.{
  ℕ, zero, suc, ◌-◌, String, ◌<>◌, Bool, true, false, ◌||◌, Option, none, some, List, [], ◌∷◌, ◌==◌,
  ◌is◌, leb, if◌then◌else◌, length, get_elem?, set, take,
}
use service_discover.Text.{first_part, join, equal_fold}
use service_discover.Errors.{Error, message, wrapped, Result, ok, err}
use service_discover.World.{Ip, v4, v6, net_interfaces, addr_resolver, lookup_ip}
use service_discover.Prog.{
  Prog, Outcome, returns, panics, lift, result, ask, check, pure, fail, map_error, ◌>>=◌,
}

-- The loop of `AddrsToSingleString`: an empty address leaves an empty text.
unfoldable pub addr_texts : List String → List String
addr_texts [] = []
addr_texts (a ∷ addrs) = (if a is "" then "" else a) ∷ addr_texts addrs

-- `AddrsToSingleString`, and `addrsToSingleString` of the server's setup.
unfoldable pub addrs_to_single_string : List String → (sep : String) → String
unfolding addr_texts
addrs_to_single_string addrs sep = join (addr_texts addrs) sep

-- The test in the loops of `CheckValidBindingAddress`.
unfoldable pub binds : (binding_address addr : String) → Bool
binds binding_address addr = binding_address is addr || binding_address is first_part addr b'/'

unfoldable pub any_binds : String → List String → (valid : Bool) → Bool
any_binds b [] valid = valid
any_binds b (a ∷ addrs) valid = any_binds b addrs (if binds b a then true else valid)

-- `addrs, _ := ...`: no addresses beside an error.
abbrev pub addrs_or_none : Result (List String) → List String
addrs_or_none (ok addrs) = addrs
addrs_or_none (err _) = []

-- The loops over the networks and their addresses.
unfoldable pub search_binding : (networks : List String) → String → (valid : Bool) → Prog Error Bool
unfolding any_binds
search_binding [] b valid = pure valid
search_binding (n ∷ networks) b valid = do
  addrs ← ask (addr_resolver n)
  search_binding networks b (any_binds b (addrs_or_none addrs) valid)

-- `CheckValidBindingAddress`
unfoldable pub check_valid_binding_address :
    (networks : List String) → String → Prog Error (Unit {0})
check_valid_binding_address networks b = do
  valid ← search_binding networks b false
  if valid then pure tt else fail (message "invalid binding address selected")

abbrev pub out_of_range : Outcome Error (List String)
out_of_range = panics "runtime error: index out of range"

-- `networks[i] = networks[len(networks)-1]; networks = networks[:len(networks)-1]` on the array and
-- the length of `networks`: `none` out of range.
unfoldable pub remove_at : List String → (len i : ℕ) → Option (List String)
remove_at array len i = elim (get_elem? (take len array) (len - 1)) [
  | none ↦ none
  | some last ↦ if leb len i then none else some (set array i last)
]

-- The loop of `NonLoopbackInterfaces`: `range` goes over the first length of the slice and reads the
-- array, which the body writes.
unfoldable pub drop_loopback :
    (rounds i : ℕ) → List String → (len : ℕ) → Outcome Error (List String)
unfolding remove_at
drop_loopback zero i array len = returns (take len array)
drop_loopback (suc rounds) i array len = elim (get_elem? array i) [
  | none ↦ out_of_range
  | some name ↦ elim (equal_fold name "lo") [
    | false ↦ drop_loopback rounds (suc i) array len
    | true ↦ elim (remove_at array len i) [
      | none ↦ out_of_range
      | some array' ↦ drop_loopback rounds (suc i) array' (len - 1)
    ]
  ]
]

-- `NonLoopbackInterfaces`
unfoldable pub non_loopback_interfaces : Prog Error (List String)
non_loopback_interfaces = do
  networks ← check (ask net_interfaces)
  lift (drop_loopback (length networks) 0 networks (length networks))

-- The bytes of `::1`: the given number of zeros and a one.
abbrev is_one : List ℕ → ℕ → Bool
is_one (b ∷ []) zero = b == 1
is_one (b ∷ c ∷ bytes) (suc n) = if b == 0 then is_one (c ∷ bytes) n else false
is_one _ _ = false

-- `net.IP.IsLoopback`
unfoldable pub is_loopback : Ip → Bool
is_loopback (v4 a b c d) = a == 127
is_loopback (v6 bytes) = is_one bytes 15

unfoldable pub any_loopback : List Ip → Bool
unfolding is_loopback
any_loopback [] = false
any_loopback (ip ∷ ips) = if is_loopback ip then true else any_loopback ips

abbrev pub check_addresses : String → List Ip → Result (Unit {0})
check_addresses host [] = err (message ("cannot resolve hostname '" <> (host <> "'")))
check_addresses host (ip ∷ ips) =
    if any_loopback (ip ∷ ips)
    then err (
        message (
          "hostname '"
          <> (host <> "' is resolving with loopback address, should resolve with LAN address")))
    else ok tt

-- `CheckHostnameAddress`
unfoldable pub check_hostname_address : String → Prog Error (Unit {0})
unfolding any_loopback
check_hostname_address host = do
  addrs ←
      map_error (check (ask (lookup_ip host)))
        (wrapped ("cannot resolve hostname '" <> (host <> "'")))
  result (check_addresses host addrs)
