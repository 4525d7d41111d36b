-- ===== src/Prog/Files.antt =====
-- The files that a history of calls leaves, as far as the calls tell: a write that failed leaves
-- anything, a rename moves a file in one step or not at all.
use service_discover.Common.{
  String, List, [], ◌∷◌, ◌≡◌, ◌≢◌, refl, ap, ◌∙◌, inl, inr, ◌is◌, is-cases, if◌then◌else◌,
}
use service_discover.Errors.{Result, ok, err}
use service_discover.World.{
  Call, Env, write_string, write_file, create_temp, create_file, rename, remove,
}

pub data FileState : Type 0 where
  absent torn : FileState
  holds : String → FileState

-- The state of one file behind a write of it.
abbrev pub written : Result (Unit {0}) → String → FileState
written (ok _) content = holds content
written (err _) content = torn

-- The state behind a call that may replace or remove the file.
abbrev pub replaced : Result (Unit {0}) → (new old : FileState) → FileState
replaced (ok _) new old = new
replaced (err _) new old = old

abbrev pub made : Result String → (path : String) → FileState → FileState
made (ok name) path old = if name is path then holds "" else old
made (err _) path old = old

module _ (env : Env) (start : String → FileState) where
  -- `start` is what the files are before the first call.
  abbrev pub file : (path : String) → List Call → FileState
  file path [] = start path
  file path (write_string g s ∷ h) =
      let old = file path h in if g is path then written (env.reply h (write_string g s)) s else old
  file path (write_file g s m ∷ h) =
      let old = file path h in if g is path then written (env.reply h (write_file g s m)) s else old
  file path (create_file g ∷ h) =
      let old = file path h in
      if g is path then replaced (env.reply h (create_file g)) (holds "") old else old
  file path (create_temp d p ∷ h) =
      let old = file path h in made (env.reply h (create_temp d p)) path old
  file path (remove g ∷ h) =
      let old = file path h in
      if g is path then replaced (env.reply h (remove g)) absent old else old
  file path (rename a b ∷ h) =
      let old = file path h in
      let moved = file a h in
      let gone = replaced (env.reply h (rename a b)) absent old in
      if b is path
      then replaced (env.reply h (rename a b)) moved old
      else if a is path
      then gone
      else old
  file path (_ ∷ h) = file path h

  -- The call does not touch the file.
  abbrev pub Leaves : (path : String) → Call → Type 0
  Leaves path (write_string g s) = g ≢ path
  Leaves path (write_file g s m) = g ≢ path
  Leaves path (create_file g) = g ≢ path
  Leaves path (create_temp d p) = ⊥
  Leaves path (remove g) = g ≢ path
  Leaves path (rename a b) = (a ≢ path) × (b ≢ path)
  Leaves path _ = Unit

  other : {A : Type 0} (s t : String) (x y : A) → s ≢ t → (if s is t then x else y) ≡ y
  other s t x y n = elim (is-cases s t) [
    | inl (e, _) ↦ absurd (n e)
    | inr (_, b) ↦ ap (λ c. if c then x else y) b
  ]

  pub if_own : {A : Type 0} (s : String) (x y : A) → (if s is s then x else y) ≡ x
  if_own s x y = elim (is-cases s s) [
    | inl (_, b) ↦ ap (λ c. if c then x else y) b
    | inr (n, _) ↦ absurd (n refl)
  ]

  -- What a write leaves in the file, and a rename where it moves the file to.
  pub file-write_string :
      (path content : String) (h : List Call)
      → file path (write_string path content ∷ h)
        ≡ written (env.reply h (write_string path content)) content
  file-write_string path content h = if_own path _ _

  pub file-rename :
      (from path : String) (h : List Call)
      → file path (rename from path ∷ h)
        ≡ replaced (env.reply h (rename from path)) (file from h) (file path h)
  file-rename from path h = if_own path _ _

  pub file-Leaves :
      (path : String) (c : Call) (h : List Call) → Leaves path c → file path (c ∷ h) ≡ file path h
  file-Leaves path (write_string g s) h n = other g path _ _ n
  file-Leaves path (write_file g s m) h n = other g path _ _ n
  file-Leaves path (create_file g) h n = other g path _ _ n
  file-Leaves path (create_temp d p) h n = absurd n
  file-Leaves path (remove g) h n = other g path _ _ n
  file-Leaves path (rename a b) h (m, n) = other b path _ _ n ∙ other a path _ _ m
  file-Leaves path _ h n = refl

  pub made_other :
      (name path : String) (r : Result String) (old : FileState)
      → r ≡ ok name
      → name ≢ path
      → made r path old ≡ old
  made_other name path r old e n = ap (λ s. made s path old) e ∙ other name path _ _ n
