-- ===== src/Command/Network/Binding.antt =====
-- pkg/command/common.go: which addresses `CheckValidBindingAddress` takes.
use service_discover.Common.{
  String, ◌is◌, Bool, true, false, ◌||◌, List, [], ◌∷◌, ◌≡◌, refl, ap, ◌∙◌, if◌then◌else◌,
  Bool-cases, inl, inr, arith,
}
use mathlib.Core.Bool.{or_assoc}
use service_discover.Text.{first_part}
use service_discover.Errors.{message}
use service_discover.World.{Call, Env, addr_resolver}
use service_discover.Prog.{returns, fails, running}
use service_discover.Command.Network.{
  binds, any_binds, addrs_or_none, search_binding, check_valid_binding_address,
}

module _ (address : String) where
  -- The reference: an address of the list is the one that was given, or it is that up to a slash.
  abbrev pub is_bound : List String → Bool
  is_bound [] = false
  is_bound (a ∷ addrs) = (address is a || address is first_part a b'/') || is_bound addrs

  any_binds-is_bound :
      (addrs : List String) (valid : Bool)
      → any_binds address addrs valid ≡ (valid || is_bound addrs)
  unfolding any_binds binds
  any_binds-is_bound [] true = refl
  any_binds-is_bound [] false = refl
  any_binds-is_bound (a ∷ addrs) valid =
      elim (Bool-cases (address is a || address is first_part a b'/')) [
        | inl b ↦ rw b (any_binds-is_bound addrs true ∙ ground arith)
        | inr b ↦ rw b (any_binds-is_bound addrs valid)
      ]

  module _ (addresses : String → List String) where
    -- An interface has it.
    abbrev pub is_on_network : List String → Bool
    is_on_network [] = false
    is_on_network (n ∷ networks) = is_bound (addresses n) || is_on_network networks

    module _ (env : Env)
        (known : (h : List Call) (n : String)
          → addrs_or_none (env.reply h (addr_resolver n)) ≡ addresses n) where
      search_binding-is_on_network :
          (networks : List String) (valid : Bool) (h : List Call)
          → (search_binding networks address valid env h).0
            ≡ returns (valid || is_on_network networks)
      unfolding search_binding running
      search_binding-is_on_network [] true h = refl
      search_binding-is_on_network [] false h = refl
      search_binding-is_on_network (n ∷ networks) valid h =
          search_binding-is_on_network networks
            (any_binds address (addrs_or_none (env.reply h (addr_resolver n))) valid)
            (addr_resolver n ∷ h)
          ∙ ap (λ v. returns (v || is_on_network networks))
              (any_binds-is_bound (addrs_or_none (env.reply h (addr_resolver n))) valid
                ∙ ap (λ l. valid || is_bound l) (known h n))
          ∙ ap returns (or_assoc valid (is_bound (addresses n)) (is_on_network networks))

      -- If each interface always gives the same addresses, none where they cannot be read,
      -- `CheckValidBindingAddress` returns for an address that one of the interfaces has, with or
      -- without the length of its prefix, and fails for every other.
      pub check_valid_binding_address-eq-is_on_network :
          (networks : List String) (h : List Call)
          → (check_valid_binding_address networks address env h).0 ≡ (
              if is_on_network networks
              then returns tt
              else fails (message "invalid binding address selected"))
      unfolding check_valid_binding_address running
      check_valid_binding_address-eq-is_on_network networks h =
          rw (search_binding-is_on_network networks false h)
            (elim (Bool-cases (is_on_network networks)) [ inl b ↦ rw b refl | inr b ↦ rw b refl ])
