-- ===== src/Daemon/Servers.antt =====
-- cmd/service-discoverd/service-discoverd.go: which servers consul is told to join, how many it
-- waits for, and where it is not started.
use service_discover.Common.{
  ℕ, ◌+◌, ◌/◌, ◌*◌, ◌<◌, ◌≤◌, String, ◌<>◌, Bool, true, false, List, [], ◌∷◌, ◌≡◌, ◌⊎◌, ◌↔◌, ◌≢◌,
  refl, sym, subst, ◌∙◌, ap, inl, inr, ◌is◌, is-cases, if◌then◌else◌, length, In, arith,
}
use service_discover.Text.{itoa}
use service_discover.Prog.{fail, maybe}
use service_discover.Daemon.ExitCode.{ErrorWithExitCode, ldap_error}
use service_discover.Daemon.{
  join_args, is_listed, consul_args, consul_bin_path, placement_error, start_consul, exec_consul,
}

abbrev join_arg : String → String
join_arg s = "-retry-join=" <> s

-- The argument stands for a server of the list that is not the local one.
abbrev pub IsJoin : (host : String) → List String → String → Type 0
IsJoin host servers a = (s : String) × ((a ≡ join_arg s) × (In s servers × (host ≢ s)))

join_args-nil : (host : String) → join_args host [] ≡ []
unfolding join_args
join_args-nil host = refl

module _ (host s : String) (servers : List String) where
  IsJoin-later : (a : String) → IsJoin host servers a → IsJoin host (s ∷ servers) a
  IsJoin-later a (t, (e, (i, n))) = (t, (e, (inr i, n)))

  IsJoin-head : (a : String) → host ≢ s → join_arg s ≡ a → IsJoin host (s ∷ servers) a
  IsJoin-head a n e = (s, (sym e, (inl refl, n)))

  join_args-local : (host is s ≡ true) → join_args host (s ∷ servers) ≡ join_args host servers
  unfolding join_args
  join_args-local t = rw t refl

  join_args-other :
      (host is s ≡ false) → join_args host (s ∷ servers) ≡ join_arg s ∷ join_args host servers
  unfolding join_args
  join_args-other t = rw t refl

join_args_sound :
    (host : String) (servers : List String) (a : String)
    → In a (join_args host servers)
    → IsJoin host servers a
join_args_sound host [] a i = absurd (subst (In a) (join_args-nil host) i)
join_args_sound host (s ∷ servers) a i = elim (is-cases host s) [
  | inl (e, t) ↦
      IsJoin-later host s servers a
        (join_args_sound host servers a (subst (In a) (join_args-local host s servers t) i))
  | inr (n, t) ↦ elim (subst (In a) (join_args-other host s servers t) i) [
    | inl e ↦ IsJoin-head host s servers a n e
    | inr j ↦ IsJoin-later host s servers a (join_args_sound host servers a j)
  ]
]

join_args_complete :
    (host : String) (servers : List String) (s : String)
    → In s servers
    → host ≢ s
    → In (join_arg s) (join_args host servers)
join_args_complete host [] s i n = absurd i
join_args_complete host (t ∷ servers) s i n = elim (is-cases host t) [
  | inl (e, b) ↦ elim i [
    | inl f ↦ absurd (n (e ∙ f))
    | inr j ↦
        subst (In (join_arg s)) (sym (join_args-local host t servers b))
          (join_args_complete host servers s j n)
  ]
  | inr (m, b) ↦
      subst (In (join_arg s)) (sym (join_args-other host t servers b)) (elim i [
        | inl f ↦ inl (ap join_arg f)
        | inr j ↦ inr (join_args_complete host servers s j n)
      ])
]

-- The arguments that the loop of `startConsul` adds are `-retry-join` arguments of exactly the servers
-- of the list other than the local one.
pub In-join_args :
    (host : String) (servers : List String) (a : String)
    → In a (join_args host servers) ↔ IsJoin host servers a
In-join_args host servers a = (
  join_args_sound host servers a,
  λ (s, (e, (i, n))).
      subst (λ b. In b (join_args host servers)) (sym e) (join_args_complete host servers s i n),
)

-- A server starts consul with a quorum to wait for that is the least majority of the listed servers:
-- twice the quorum is more than their number, and at most two more.
pub consul_args-quorum :
    (servers : List String) (host : String)
    → (q : ℕ) × (rest : List String) × ((consul_args true servers host
          ≡ consul_bin_path ∷ "agent" ∷ "-bootstrap-expect" ∷ itoa q ∷ rest)
        × ((length servers < 2 * q) × (2 * q ≤ length servers + 2)))
unfolding consul_args
consul_args-quorum servers host = (length servers / 2 + 1, _, (refl, (omega arith, omega arith)))

-- Where consul may run: a server on a listed host, an agent on a host that is not listed.
abbrev pub IsPlaced : (is_server : Bool) → (servers : List String) → (host : String) → Type 0
IsPlaced true servers host = In host servers
IsPlaced false servers host = ¬ (In host servers)

is_listed-In :
    (host : String) (servers : List String) → is_listed host servers ≡ true → In host servers
unfolding is_listed
is_listed-In host [] e = ground arith
is_listed-In host (s ∷ servers) e = elim (is-cases host s) [
  | inl (f, t) ↦ inl (sym f)
  | inr (n, t) ↦
      inr (
        is_listed-In host servers
          (sym (ap (λ b. if b then true else is_listed host servers) t) ∙ e))
]

In-is_listed :
    (host : String) (servers : List String) → In host servers → is_listed host servers ≡ true
unfolding is_listed
In-is_listed host [] i = absurd i
In-is_listed host (s ∷ servers) i = elim (is-cases host s) [
  | inl (f, t) ↦ ap (λ b. if b then true else is_listed host servers) t
  | inr (n, t) ↦
      ap (λ b. if b then true else is_listed host servers) t
      ∙ elim i [ inl e ↦ absurd (n (sym e)) | inr j ↦ In-is_listed host servers j ]
]

not_listed :
    (host : String) (servers : List String) → is_listed host servers ≡ false → ¬ (In host servers)
not_listed host servers e i = ground (arith, In-is_listed host servers i)

-- The decision of `startConsul`.
abbrev pub Starts : (is_server : Bool) → (servers : List String) → (host : String) → Type 0
Starts is_server servers host =
    (IsPlaced is_server servers host
      × (start_consul is_server servers host ≡ exec_consul (consul_args is_server servers host)))
    ⊎ ((¬ (IsPlaced is_server servers host))
        × ((e : ErrorWithExitCode) × ((start_consul is_server servers host ≡ fail e)
              × (e.exit_code ≡ ldap_error))))

decided :
    (is_server : Bool) (servers : List String) (host : String) (listed : Bool)
    → is_listed host servers ≡ listed
    → start_consul is_server servers host
      ≡ maybe
          (placement_error is_server listed host)
          (exec_consul (consul_args is_server servers host))
          fail
unfolding start_consul
decided is_server servers host listed e =
    ap
      (λ b.
        maybe (placement_error is_server b host) (exec_consul (consul_args is_server servers host))
          fail)
      e

start_consul-decided :
    (is_server : Bool) (servers : List String) (host : String) (listed : Bool)
    → is_listed host servers ≡ listed
    → Starts is_server servers host
start_consul-decided true servers host true e =
    inl (is_listed-In host servers e, decided true servers host true e)
start_consul-decided false servers host false e =
    inl (not_listed host servers e, decided false servers host false e)
start_consul-decided true servers host false e =
    inr (not_listed host servers e, (_, (decided true servers host false e, refl)))
start_consul-decided false servers host true e =
    inr (λ n. n (is_listed-In host servers e), (_, (decided false servers host true e, refl)))

-- `startConsul` executes consul if it is a server on a listed host or an agent on a host that is not
-- listed; everywhere else it fails with the code of an LDAP error and calls nothing.
pub start_consul-Starts :
    (is_server : Bool) (servers : List String) (host : String) → Starts is_server servers host
start_consul-Starts is_server servers host =
    start_consul-decided is_server servers host (is_listed host servers) refl
