-- ===== src/Carbonio/LocalConfig/Lookup.antt =====
-- What a loaded configuration answers.
use service_discover.Common.{
  String, ◌≡◌, ◌≢◌, refl, ◌∙◌, ap, Option, none, some, List, [], ◌∷◌, if◌then◌else◌, ◌is◌, arith,
  In, inl, inr, Option-cases,
}
use service_discover.Common.Dict.{lookup, lookup-insert}
use service_discover.Text.{trim_space}
use service_discover.Errors.{Error, Result, ok, err}
use service_discover.World.{Call, Env, read_file}
use service_discover.Prog.{returns, lift, result, outcome_of, ask}
use service_discover.Prog.Ends.{
  Ends, EndsWell, Any, Never, Ends-bind, Ends-on_error, Ends-check, Ends-ask, Ends-fail,
  Ends-result,
}
use service_discover.Carbonio.LocalConfig.{
  RawKey, LocalConfigEntry, LocalConfig, index_keys, check_required, required_fields, value, values,
  load_raw, load_local_config,
}

-- The entry that a key makes.
abbrev pub entry_of : RawKey → LocalConfigEntry
entry_of n = record { text = trim_space n.text; value = n.value }

-- The last key of a name, or what was there before.
abbrev pub last_key : List RawKey → String → Option LocalConfigEntry → Option LocalConfigEntry
last_key [] name before = before
last_key (n ∷ keys) name before =
    last_key keys name (if n.name is name then some (entry_of n) else before)

lookup-index_keys_onto :
    (keys : List RawKey) (index : LocalConfig) (name : String)
    → lookup name (index_keys keys index) ≡ last_key keys name (lookup name index)
unfolding index_keys
lookup-index_keys_onto [] index name = refl
lookup-index_keys_onto (n ∷ keys) index name =
    lookup-index_keys_onto keys _ name
    ∙ ap (last_key keys name) (lookup-insert n.name name (entry_of n) index)

-- The index holds, for each name, the last key of that name.
pub lookup-index_keys :
    (keys : List RawKey) (name : String)
    → lookup name (index_keys keys []) ≡ last_key keys name none
lookup-index_keys keys name =
    lookup-index_keys_onto keys [] name ∙ ap (last_key keys name) (unfold lookup in refl)

check_required_sound :
    (fields : List String) (index found : LocalConfig)
    → check_required fields index ≡ ok found
    → (found ≡ index) × ((f : String) → In f fields → lookup f index ≢ none)
unfolding check_required
check_required_sound [] index found e = (ground arith, λ f there. absurd there)
check_required_sound (g ∷ fields) index found e = elim (Option-cases (lookup g index)) [
  | inl missing ↦ absurd (ground (arith, missing))
  | inr (x, present) ↦
      let e' : check_required fields index ≡ ok found = ground (arith, present) in
      let (same, all) = check_required_sound fields index found e' in
      (same, λ f there. go f (all f) present there)
]
  where
    go :
        {x : LocalConfigEntry} (f : String)
        → (In f fields → lookup f index ≢ none)
        → lookup g index ≡ some x
        → In f (g ∷ fields)
        → lookup f index ≢ none
    go f rest present (inl same) = ground (arith, same)
    go f rest present (inr there) = rest there

-- Every required field is there.
abbrev pub HasRequired : LocalConfig → Type 0
HasRequired l = (f : String) → In f required_fields → lookup f l ≢ none

check_required-Ends :
    (index : LocalConfig) → Ends HasRequired Any (result (check_required required_fields index))
unfolding lift
check_required-Ends index = record { at = λ env h. go (check_required required_fields index) refl }
  where
    go :
        (r : Result LocalConfig)
        → check_required required_fields index ≡ r
        → EndsWell HasRequired Any (outcome_of r)
    go (ok l) e =
        let (same, all) = check_required_sound required_fields index l e in
        λ f there. rw same (all f there)
    go (err x) e = tt

value_of_present :
    (l : LocalConfig) (f : String) → lookup f l ≢ none → (v : String) × (value l f ≡ returns v)
unfolding value
value_of_present l f h = elim (Option-cases (lookup f l)) [
  | inl missing ↦ absurd (h missing)
  | inr (e, present) ↦ (e.value, ground (arith, present))
]

pub value-EndsWell :
    (l : LocalConfig) (f : String)
    → lookup f l ≢ none
    → EndsWell {E = Error} {A = String} Any Never (value l f)
unfolding value
value-EndsWell l f h = elim (Option-cases (lookup f l)) [
  | inl missing ↦ absurd (h missing)
  | inr (e, present) ↦ rw (present, value) tt
]

pub values-EndsWell :
    (l : LocalConfig) (f : String)
    → lookup f l ≢ none
    → EndsWell {E = Error} {A = List String} Any Never (values l f)
unfolding values
values-EndsWell l f h = elim (Option-cases (lookup f l)) [
  | inl missing ↦ absurd (h missing)
  | inr (e, present) ↦ rw (present, values) tt
]

module _ (parse_xml : String → Result (List RawKey)) (path : String) where
  load_raw-Ends : Ends Any Any (load_raw parse_xml path)
  unfolding load_raw
  load_raw-Ends =
      Ends-bind _ _
        (Ends-on_error _ _ (Ends-check (ask (read_file path)) (Ends-ask (read_file path)) (λ e. tt))
          (λ e _. Ends-fail _ tt))
        (λ bytes _. Ends-result (parse_xml bytes) (λ e. tt))

  pub load_local_config-Ends : Ends HasRequired Any (load_local_config parse_xml path)
  unfolding load_local_config
  load_local_config-Ends =
      Ends-bind _ _ load_raw-Ends (λ raw _. check_required-Ends (index_keys raw []))

-- A configuration that `LoadLocalConfig` returns has a value for each required field: `Value` does
-- not panic there, whatever the file held.
pub value-load_local_config :
    (parse_xml : String → Result (List RawKey)) (path : String) (env : Env) (h : List Call)
    (l : LocalConfig) (f : String)
    → (load_local_config parse_xml path env h).0 ≡ returns l
    → In f required_fields
    → (v : String) × (value l f ≡ returns v)
value-load_local_config parse_xml path env h l f e there =
    value_of_present l f ((rw e at ((load_local_config-Ends parse_xml path).at env h)) f there)

-- Where several keys have one name, `Value` gives the value of the last of them.
pub value-index_keys :
    (keys : List RawKey) (name : String) (last : LocalConfigEntry)
    → last_key keys name none ≡ some last
    → value (index_keys keys []) name ≡ returns last.value
unfolding value
value-index_keys keys name last e = rw (lookup-index_keys keys name, value, e)
