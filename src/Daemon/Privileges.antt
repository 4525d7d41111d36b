-- ===== src/Daemon/Privileges.antt =====
-- cmd/service-discoverd/service-discoverd.go: what the daemon has done before it becomes consul.
use service_discover.Common.{
  String, Bool, true, false, ◌||◌, ◌&&◌, Option, List, [], ◌∷◌, ◌++◌, ◌≡◌, refl, All, arith, ap,
  ◌∙◌, subst, sym,
}
use service_discover.Errors.{Result, ok, err}
use service_discover.Json.{Codec}
use service_discover.Number.{ℤ}
use service_discover.World.{Call, Env, lookup_user, setgid, setuid, exec}
use service_discover.Prog.{
  Prog, Outcome, returns, fails, panics, panic, ask, fail, result, ◌>>=◌, on_error, maybe,
}
use service_discover.Prog.Emits.{
  Emits, Grows, Emits-ask, Emits-fail, Emits-lift, Emits-panic, Emits-bind, Emits-on_error,
}
use service_discover.Prog.Triple.{
  Triple, Triple-bind, Triple-on_error, Triple-check, Triple-ask, Triple-fail, Triple-Emits,
  Triple-Ends, Triple-weaken, Triple-given, Triple-then, Triple-maybe, Post, Answered,
}
use service_discover.Carbonio.LocalConfig.{RawKey}
use service_discover.Carbonio.Ldap.{Base64, service_name}
use service_discover.Carbonio.Ldap.Connection.{query_all_servers-Emits}
use service_discover.Daemon.Exits.{read_local_config-Ends, HasExitCode}
use service_discover.Daemon.ExitCode.{ErrorWithExitCode, exit_plain, wrong_args}
use service_discover.Daemon.Calls.{
  IsNotExec, Every, check_root-Emits, read_local_config-Emits, query_servers-Emits,
  add_grpc_tls-Emits, start_consul-Emits, report-Emits,
}
use service_discover.Daemon.{
  user_error, main_json_path, mode_of, change_user, daemon_steps, run_daemon, report,
}

abbrev succeeded : Result (Unit {0}) → Bool
succeeded (ok _) = true
succeeded (err _) = false

module _ (env : Env) where
  -- A group was set with success.
  abbrev pub has_group : List Call → Bool
  has_group [] = false
  has_group (setgid g ∷ h) = succeeded (env.reply h (setgid g)) || has_group h
  has_group (_ ∷ h) = has_group h

  -- A user was set with success, and a group before it.
  abbrev pub has_dropped : List Call → Bool
  has_dropped [] = false
  has_dropped (setuid u ∷ h) = (succeeded (env.reply h (setuid u)) && has_group h) || has_dropped h
  has_dropped (_ ∷ h) = has_dropped h

  -- Each `exec` comes behind that.
  abbrev pub Guarded : List Call → Type 0
  Guarded [] = Unit
  Guarded (exec p a e ∷ h) = (has_dropped h ≡ true) × Guarded h
  Guarded (_ ∷ h) = Guarded h

  Guarded-cons : (c : Call) (h : List Call) → IsNotExec c → Guarded h → Guarded (c ∷ h)
  Guarded-cons (exec p a e) h n g = absurd n
  Guarded-cons _ h n g = g

  dropped-cons : (c : Call) (h : List Call) → has_dropped h ≡ true → has_dropped (c ∷ h) ≡ true
  dropped-cons (setuid u) h d = ground arith
  dropped-cons _ h d = d

  -- No `exec` yet that came too early, and the privileges are gone.
  abbrev Safe : List Call → Type 0
  Safe h = (has_dropped h ≡ true) × Guarded h

  Safe-cons : (c : Call) (h : List Call) → Safe h → Safe (c ∷ h)
  Safe-cons (exec p a e) h (d, g) = (d, (d, g))
  Safe-cons (setuid u) h (d, g) = (ground arith, g)
  Safe-cons _ h (d, g) = (d, g)

  Guarded-append : (new h : List Call) → All IsNotExec new → Guarded h → Guarded (new ++ h)
  Guarded-append [] h n g = g
  Guarded-append (c ∷ new) h (n, ns) g = Guarded-cons c (new ++ h) n (Guarded-append new h ns g)

  Safe-append : (new h : List Call) → Safe h → Safe (new ++ h)
  Safe-append [] h s = s
  Safe-append (c ∷ new) h s = Safe-cons c (new ++ h) (Safe-append new h s)

  Guarded-Grows : (h h' : List Call) → Grows IsNotExec h h' → Guarded h → Guarded h'
  Guarded-Grows h h' k g = subst Guarded (sym k.grown) (Guarded-append k.new h k.all g)

  Safe-Grows : (h h' : List Call) → Grows Every h h' → Safe h → Safe h'
  Safe-Grows h h' k s = subst Safe (sym k.grown) (Safe-append k.new h s)

  module _ {E A : Type 0} {m : Prog E A} where
    -- What runs before the privileges are dropped, and what runs behind.
    before : Emits IsNotExec m → Triple env Guarded m (λ _. Guarded) Guarded
    before k = Triple-Emits m k Guarded-Grows

    behind : Emits Every m → Triple env Safe m (λ _. Safe) Safe
    behind k = Triple-Emits m k Safe-Grows

module _ (env : Env) where
  group-Answered :
      (g : ℤ) (h : List Call) (r : Result (Unit {0}))
      → env.reply h (setgid g) ≡ r
      → Guarded env h
      → Answered (λ _ h'. (has_group env h' ≡ true) × Guarded env h') (Guarded env) r (setgid g ∷ h)
  group-Answered g h (ok _) e k = (ap (λ r. succeeded r || has_group env h) e, k)
  group-Answered g h (err _) e k = k

  user-Answered :
      (u : ℤ) (h : List Call) (r : Result (Unit {0}))
      → env.reply h (setuid u) ≡ r
      → (has_group env h ≡ true) × Guarded env h
      → Answered (λ _. Safe env) (Guarded env) r (setuid u ∷ h)
  user-Answered u h (ok _) e (g, k) = (
    ap (λ r. (succeeded r && has_group env h) || has_dropped env h) e
        ∙ ap (λ b. b || has_dropped env h) g,
    k,
  )
  user-Answered u h (err _) e (g, k) = k

  set_group :
      (g : ℤ)
      → Triple env
          (Guarded env)
          (on_error (ask (setgid g) >>= result) (λ e. fail (user_error "cannot change gid: " e)))
          (λ _ h. (has_group env h ≡ true) × Guarded env h)
          (Guarded env)
  set_group g =
      Triple-on_error _ _
        (Triple-check _ (Triple-ask (setgid g) _ (λ h k. group-Answered g h _ refl k))) (λ h k. k)
        (λ e. Triple-fail _ _)

  set_user :
      (u : ℤ)
      → Triple env
          (λ h. (has_group env h ≡ true) × Guarded env h)
          (on_error (ask (setuid u) >>= result) (λ e. fail (user_error "cannot change uid: " e)))
          (λ _. Safe env)
          (Guarded env)
  set_user u =
      Triple-on_error _ _
        (Triple-check _ (Triple-ask (setuid u) _ (λ h k. user-Answered u h _ refl k))) (λ h k. k)
        (λ e. Triple-fail _ _)

  change_user-Triple : Triple env (Guarded env) change_user (λ _. Safe env) (Guarded env)
  unfolding change_user
  change_user-Triple =
      Triple-bind _ _
        (before env (
          Emits-on_error _ _
            (Emits-bind _ result (Emits-ask (lookup_user "service-discover") tt)
              (λ r. Emits-lift _))
            (λ e. Emits-fail _)))
        λ user.
          Triple-bind _ _ (before env (Emits-on_error _ _ (Emits-lift _) (λ e. Emits-fail _)))
            λ uid.
              Triple-bind _ _ (before env (Emits-on_error _ _ (Emits-lift _) (λ e. Emits-fail _)))
                λ gid. Triple-bind _ _ (set_group gid) λ _. set_user uid

  -- Behind the drop, an error leaves less to know.
  after :
      {E A : Type 0} (m : Prog E A)
      → Emits Every m
      → Triple env (Safe env) m (λ _. Safe env) (Guarded env)
  after m k = Triple-weaken _ (λ h x. x.1) m (behind env k)

module _ (codec : Codec) (parse_xml : String → Result (List RawKey)) (base64 : Base64)
    (env : Env) where
  daemon_steps-Triple :
      (is_server : Bool) (rest : List String)
      → Triple env
          (Guarded env)
          (daemon_steps codec parse_xml base64 is_server rest)
          (λ _. Guarded env)
          (Guarded env)
  unfolding daemon_steps
  daemon_steps-Triple is_server rest = Triple-bind _ _ (before env check_root-Emits) λ _.
      Triple-bind _ _
        (Triple-Ends (λ x. Emits Every (x.0.query_all_servers service_name)) HasExitCode _ _ _
          (read_local_config-Ends base64 (λ ldap. Emits Every (ldap.query_all_servers service_name))
            (λ c. query_all_servers-Emits (λ _ _. tt) c service_name) parse_xml)
          (before env (read_local_config-Emits parse_xml base64)))
        λ x. Triple-given _ λ k. Triple-bind _ _ (change_user-Triple env) λ _.
          Triple-bind _ _ (after env _ (query_servers-Emits x.0 k)) λ servers.
            Triple-bind _ _ (after env _ (add_grpc_tls-Emits codec (main_json_path rest))) λ _.
              Triple-then _ _ _ _ (λ a h k. k.1)
                (after env _ (start_consul-Emits is_server servers x.1))

  ran-Triple :
      (mode : Option (Bool × List String))
      → Triple env
          (Guarded env)
          (maybe mode (report (exit_plain wrong_args "one parameter: server or agent")) λ x.
            on_error
              (daemon_steps codec parse_xml base64 x.0 x.1 >>= λ _.
                panic "service-discoverd failure")
              report)
          (λ _. Guarded env)
          (Guarded env)
  ran-Triple mode = Triple-maybe mode _ _ (before env (report-Emits _)) λ x.
      Triple-on_error _ _
        (Triple-bind _ _ (daemon_steps-Triple x.0 x.1) (λ _. before env (Emits-panic _))) (λ h k. k)
        (λ e. before env (report-Emits e))

  Post-any :
      {A : Type 0} (r : Outcome ErrorWithExitCode A) (h : List Call)
      → Post (λ _. Guarded env) (Guarded env) r h
      → Guarded env h
  Post-any (returns a) h k = k
  Post-any (fails e) h k = k
  Post-any (panics s) h k = k

  run_daemon-Triple :
      (args : List String)
      → Triple env
          (Guarded env)
          (run_daemon codec parse_xml base64 args)
          (λ _. Guarded env)
          (Guarded env)
  unfolding run_daemon
  run_daemon-Triple args = ran-Triple (mode_of args)

  -- In every run of `runServiceDiscoverDaemon` from the start of the process, whatever the arguments,
  -- the environment and the codecs are, each `exec` comes behind a `setuid` that succeeded, and that
  -- one behind a `setgid` that succeeded.
  pub run_daemon-Guarded :
      (args : List String) → Guarded env (run_daemon codec parse_xml base64 args env []).1
  run_daemon-Guarded args =
      let run = run_daemon codec parse_xml base64 args env [] in
      Post-any run.0 run.1 ((run_daemon-Triple args).at [] tt)
