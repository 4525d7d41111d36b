-- ===== src/Command/TokenCreation.antt =====
-- pkg/command/common.go: the decoding of an `ACLTokenCreation`. Its users take the secret id of it.
use service_discover.Common.{String, Bool, true, false, ◌&&◌, List, [], ◌∷◌, if◌then◌else◌}
use service_discover.Text.{equal_fold}
use service_discover.Number.{ℤ, atoi}
use service_discover.Errors.{Result, ok, err, message}
use service_discover.Json.{
  Json, null, bool, num, str, arr, obj, Items, nil, cons, Codec, fields_of, decode_string,
  bind_result,
}

-- The Go types of the fields.
pub data FieldType : Type 0 where
  string_type int64_type bool_type policies_type : FieldType

-- `ACLPolicies`
abbrev pub policy_fields : List (String × FieldType)
policy_fields = ("ID", string_type) ∷ ("Name", string_type) ∷ []

-- `ACLTokenCreation`
abbrev pub token_fields : List (String × FieldType)
token_fields =
    ("AccessorID", string_type)
    ∷ ("CreateIndex", int64_type)
    ∷ ("CreateTime", string_type)
    ∷ ("Description", string_type)
    ∷ ("Hash", string_type)
    ∷ ("Local", bool_type)
    ∷ ("ModifyIndex", int64_type)
    ∷ ("Policies", policies_type)
    ∷ ("SecretID", string_type)
    ∷ []

-- A number is decoded if its literal is that of a 64-bit integer.
abbrev is_int : Result ℤ → Bool
is_int (ok _) = true
is_int (err _) = false

module _ (accepts : FieldType → Json → Bool) where
  -- A name is that of a field in any case; a name of no field is passed over.
  abbrev pub fits : List (String × FieldType) → String → Json → Bool
  fits [] k v = true
  fits ((name, type) ∷ types) k v = if equal_fold k name then accepts type v else fits types k v

  abbrev pub all_fit : List (String × FieldType) → List (String × Json) → Bool
  all_fit types [] = true
  all_fit types ((k, v) ∷ fs) = fits types k v && all_fit types fs

-- A value that is not of the type is an error; null leaves the field.
abbrev pub accepts_plain : FieldType → Json → Bool
accepts_plain type null = true
accepts_plain string_type (str s) = true
accepts_plain int64_type (num s) = is_int (atoi s)
accepts_plain bool_type (bool b) = true
accepts_plain type v = false

abbrev pub accepts_policy : Json → Bool
accepts_policy null = true
accepts_policy (obj fs) = all_fit accepts_plain policy_fields (fields_of fs)
accepts_policy v = false

abbrev pub accepts_policies : Items → Bool
accepts_policies nil = true
accepts_policies (cons v vs) = accepts_policy v && accepts_policies vs

abbrev pub accepts : FieldType → Json → Bool
accepts policies_type null = true
accepts policies_type (arr vs) = accepts_policies vs
accepts policies_type v = false
accepts type v = accepts_plain type v

-- `json.Unmarshal` of a tree into an `ACLTokenCreation`: its secret id. A field of another type than
-- the struct has is an error.
unfoldable pub decode_token : Json → Result String
decode_token (obj fs) =
    if all_fit accepts token_fields (fields_of fs)
    then decode_string "SecretID" (obj fs)
    else err (message "json: cannot unmarshal into Go struct field of type ACLTokenCreation")
decode_token v = decode_string "SecretID" v

-- `json.Unmarshal(bytes, &token)`
unfoldable pub unmarshal_token : Codec → (content : String) → Result String
unmarshal_token codec content = bind_result (codec.parse content) decode_token
