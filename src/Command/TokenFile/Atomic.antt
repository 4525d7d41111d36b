-- ===== src/Command/TokenFile/Atomic.antt =====
-- pkg/command/service_token.go: what a reader of the token file can see while `writeTokenFile` runs.
use service_discover.Common.{
  String, Bool, List, [], ◌∷◌, ◌++◌, ◌≡◌, ◌≢◌, ◌⊎◌, refl, sym, ap, ◌∙◌, subst, inl, inr, All,
  if◌then◌else◌, ◌is◌,
}
use service_discover.Errors.{Error, Result, ok, err, join_errors}
use service_discover.Number.{ℤ}
use service_discover.FilePath.{dir}
use service_discover.World.{
  Call, Env, write_string, close_file, chown, mkdir_all, lookup_user, create_temp, rename, remove,
}
use service_discover.Prog.{
  Prog, Outcome, returns, fails, panics, ask, pure, check, outcome_of, lift, deferring,
}
use service_discover.Prog.Emits.{
  Emits, Emits-ask, Emits-pure, Emits-fail, Emits-lift, Emits-bind, Emits-on_error, Emits-if,
}
use service_discover.Prog.Triple.{
  Triple, Post, Triple-bind, Triple-check, Triple-ask, Triple-Emits, Triple-if, Triple-pure,
  Answered, Triple-given,
}
use service_discover.Prog.Files.{
  FileState, holds, file, Leaves, file-Leaves, made, made_other, written, replaced, file-rename,
  file-write_string,
}
use service_discover.Command.TokenFile.{write_token_file, fill_and_rename, owner_ids, is_natural}

module _ (env : Env) (start : String → FileState) (path secret : String) (old : FileState) where
  -- The file as it was, or with the whole secret.
  abbrev pub IsWhole : List Call → Type 0
  IsWhole h = (file env start path h ≡ old) ⊎ (file env start path h ≡ holds secret)

  -- It is so at every moment from a history on.
  pub data Always (from : List Call) : List Call → Type 0 where
    at_start : Always from from
    later : (c : Call) (h : List Call) → Always from h → IsWhole (c ∷ h) → Always from (c ∷ h)

  module _ (from : List Call) where
    -- Nothing has happened to the file yet.
    abbrev pub Waiting : List Call → Type 0
    Waiting h = Always from h × (file env start path h ≡ old)

    pub step : (c : Call) (h : List Call) → Leaves env start path c → Waiting h → Waiting (c ∷ h)
    step c h l (a, e) =
        let same : file env start path (c ∷ h) ≡ old = file-Leaves env start path c h l ∙ e in
        (later c h a (inl same), same)

    pub steps :
        (new h : List Call) → All (Leaves env start path) new → Waiting h → Waiting (new ++ h)
    steps [] h ls w = w
    steps (c ∷ new) h (l, ls) w = step c (new ++ h) l (steps new h ls w)

    waiting :
        {E A : Type 0} (m : Prog E A)
        → Emits (Leaves env start path) m
        → Triple env Waiting m (λ _. Waiting) Waiting
    waiting m k = Triple-Emits m k λ h h' g w. subst Waiting (sym g.grown) (steps g.new h g.all w)

    -- The file has been replaced.
    abbrev pub Done : List Call → Type 0
    Done h = Always from h × (file env start path h ≡ holds secret)

    made-Waiting :
        (d p : String) (h : List Call) (r : Result String)
        → env.reply h (create_temp d p) ≡ r
        → ((name : String) → env.reply h (create_temp d p) ≡ ok name → name ≢ path)
        → Waiting h
        → Answered (λ tmp h. (tmp ≢ path) × Waiting h) Waiting r (create_temp d p ∷ h)
    made-Waiting d p h (ok name) e fresh (a, w) =
        let same = made_other env start name path _ (file env start path h) e (fresh name e) ∙ w in
        (fresh name e, (later (create_temp d p) h a (inl same), same))
    made-Waiting d p h (err x) e fresh (a, w) =
        let same : file env start path (create_temp d p ∷ h) ≡ old =
          ap (λ s. made s path (file env start path h)) e ∙ w in
        (later (create_temp d p) h a (inl same), same)

    module _ (tmp : String) (apart : tmp ≢ path) where
      -- The temporary file has the whole secret.
      abbrev Filled : List Call → Type 0
      Filled h = Waiting h × (file env start tmp h ≡ holds secret)

      -- It has if the writing of it succeeded.
      abbrev Trying : Result (Unit {0}) → List Call → Type 0
      Trying r h = Waiting h × (r ≡ ok tt → file env start tmp h ≡ holds secret)

      written-Trying :
          (h : List Call)
          → Waiting h
          → Trying (env.reply h (write_string tmp secret)) (write_string tmp secret ∷ h)
      written-Trying h w = (
        step (write_string tmp secret) h apart w,
        λ e. file-write_string env start tmp secret h ∙ ap (λ r. written r secret) e,
      )

      joined-Filled :
          (r c : Result (Unit {0})) (h : List Call)
          → Trying r h
          → Post (λ _. Filled) Waiting (outcome_of (join_errors r c)) h
      joined-Filled (ok tt) (ok _) h (w, f) = (w, f refl)
      joined-Filled (ok _) (err e) h (w, f) = w
      joined-Filled (err e) (ok _) h (w, f) = w
      joined-Filled (err e) (err e') h (w, f) = w

      renamed :
          (h : List Call) (r : Result (Unit {0}))
          → env.reply h (rename tmp path) ≡ r
          → Filled h
          → Answered (λ _. Done) Waiting r (rename tmp path ∷ h)
      renamed h (ok _) e ((a, w), f) =
          let now : file env start path (rename tmp path ∷ h) ≡ holds secret =
            file-rename env start tmp path h
            ∙ ap (λ r. replaced r (file env start tmp h) (file env start path h)) e
            ∙ f in
          (later (rename tmp path) h a (inr now), now)
      renamed h (err x) e ((a, w), f) =
          let now : file env start path (rename tmp path ∷ h) ≡ old =
            file-rename env start tmp path h
            ∙ ap (λ r. replaced r (file env start tmp h) (file env start path h)) e
            ∙ w in
          (later (rename tmp path) h a (inl now), now)

      answered :
          (r : Result (Unit {0})) (h : List Call) → Filled h → Answered (λ _. Filled) Waiting r h
      answered (ok _) h k = k
      answered (err e) h k = k.0

      owned :
          (owner : Bool) (uid gid : ℤ)
          → Triple {E = Error} env Filled
              (if owner then check (ask (chown tmp uid gid)) else pure tt)
              (λ _. Filled)
              Waiting
      owned owner uid gid =
          Triple-if owner _ _
            (Triple-check _ (
              Triple-ask (chown tmp uid gid) (Answered (λ _. Filled) Waiting)
                λ h k. answered _ _ (step (chown tmp uid gid) h tt k.0, k.1)))
            (Triple-pure tt (λ _. Filled))

      filled_and_renamed :
          (uid gid : ℤ)
          → Triple env Waiting (fill_and_rename tmp path secret uid gid) (λ _. Done) Waiting
      unfolding fill_and_rename lift
      filled_and_renamed uid gid =
          Triple-bind _ _ (Triple-ask (write_string tmp secret) Trying written-Trying) λ r.
            Triple-bind _ _
              (Triple-ask (close_file tmp) (λ _. Trying r)
                (λ h (w, f). (step (close_file tmp) h tt w, f)))
              λ c.
                Triple-bind _ _ (record { at = joined-Filled r c })
                  λ _. Triple-bind _ _ (owned (is_natural uid) uid gid) λ _. Triple-check _ (
                    Triple-ask (rename tmp path) (Answered (λ _. Done) Waiting)
                      (λ h k. renamed h _ refl k))

      removed :
          (r : Outcome Error (Unit {0})) (h : List Call)
          → Post (λ _. Done) Waiting r h
          → Post (λ _. Done) Waiting r (remove tmp ∷ h)
      removed (returns _) h (a, e) =
          let same : file env start path (remove tmp ∷ h) ≡ holds secret =
            file-Leaves env start path (remove tmp) h apart ∙ e in
          (later (remove tmp) h a (inr same), same)
      removed (fails e) h w = step (remove tmp) h apart w
      removed (panics x) h w = step (remove tmp) h apart w

      replacing :
          (uid gid : ℤ)
          → Triple env Waiting
              (deferring (fill_and_rename tmp path secret uid gid) (remove tmp))
              (λ _. Done)
              Waiting
      unfolding deferring
      replacing uid gid = record { at = λ h w. removed _ _ ((filled_and_renamed uid gid).at h w) }

    owner_ids-Emits : (owner : String) → Emits (Leaves env start path) (owner_ids owner)
    unfolding owner_ids lift
    owner_ids-Emits owner = Emits-if (owner is "") _ _ (Emits-pure _) (
        Emits-bind _ _
          (Emits-on_error _ _ (Emits-bind _ _ (Emits-ask (lookup_user owner) tt) λ r. Emits-lift _)
            (λ e. Emits-fail _))
          λ user. Emits-pure _)

    pub write_token_file-Triple :
        (owner : String)
        → ((h : List Call) (d p name : String)
            → env.reply h (create_temp d p) ≡ ok name
            → name ≢ path)
        → Triple env Waiting (write_token_file path secret owner) (λ _. Done) Waiting
    unfolding write_token_file
    write_token_file-Triple owner fresh = Triple-bind _ _ (waiting _ (owner_ids-Emits owner)) λ ids.
        Triple-bind _ _
          (waiting _ (Emits-bind _ _ (Emits-ask (mkdir_all (dir path) 0o755) tt) λ r. Emits-lift _))
          λ _.
            Triple-bind _ _
              (Triple-check _ (
                Triple-ask (create_temp (dir path) ".token-*")
                  (Answered (λ tmp h. (tmp ≢ path) × Waiting h) Waiting)
                  λ h w. made-Waiting _ _ h _ refl (fresh h _ _) w))
              λ tmp. Triple-given _ λ apart. replacing tmp apart ids.0 ids.1

module _ (env : Env) (start : String → FileState) (path secret : String) where
  pub split :
      (from : List Call) (r : Outcome Error (Unit {0})) (h : List Call)
      → let old = file env start path from in
        Post (λ _. Done env start path secret old from) (Waiting env start path secret old from) r h
        → Always env start path secret old from h
          × Post
              (λ _ h. file env start path h ≡ holds secret)
              (λ h. file env start path h ≡ old)
              r
              h
  split from (returns _) h d = d
  split from (fails e) h w = w
  split from (panics x) h w = w

  -- The token file is replaced in one step: if no temporary file is given the name of the token
  -- file, then behind every call that the function makes the token file is as it was or holds the
  -- whole secret; it holds the secret when the function returns, and it is as it was when the
  -- function fails or panics.
  pub write_token_file-IsAtomic :
      (owner : String) (h : List Call)
      → ((h : List Call) (d p name : String)
          → env.reply h (create_temp d p) ≡ ok name
          → name ≢ path)
      → let ran = write_token_file path secret owner env h in
        let old = file env start path h in
        Always env start path secret old h ran.1
        × Post
            (λ _ h. file env start path h ≡ holds secret)
            (λ h. file env start path h ≡ old)
            ran.0
            ran.1
  write_token_file-IsAtomic owner h fresh =
      let old = file env start path h in
      split h _ _
        ((write_token_file-Triple env start path secret old h owner fresh).at h (at_start, refl))
