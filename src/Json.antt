-- ===== src/Json.antt =====
-- What the code uses of encoding/json, on trees: the text of a tree is a `Codec`'s affair. An object
-- lists its fields in order; a number is its literal.
use service_discover.Common.{String, Bool, List, [], ◌∷◌, if◌then◌else◌}
use service_discover.Text.{equal_fold}
use service_discover.Errors.{message, Result, ok, err}

mutual
  pub data Json : Type 0 where
    null : Json
    bool : Bool → Json
    num : String → Json
    str : String → Json
    arr : Items → Json
    obj : Fields → Json

  pub data Items : Type 0 where
    nil : Items
    cons : Json → Items → Items

  pub data Fields : Type 0 where
    end : Fields
    field : String → Json → Fields → Fields

-- `json.Unmarshal` into a tree, `json.Marshal`, and `json.MarshalIndent(v, "", "  ")`.
pub record Codec : Type 0 where
  pub parse : String → Result Json
  pub print : Json → Result String
  pub print_indent : Json → Result String

abbrev pub fields_of : Fields → List (String × Json)
fields_of end = []
fields_of (field k v fs) = (k, v) ∷ fields_of fs

abbrev pub object : List (String × Json) → Fields
object [] = end
object ((k, v) ∷ fs) = field k v (object fs)

-- The decoding of a struct's string field: the last field of that name, in any case, wins; null
-- leaves it, and a value of another type is an error once all fields are read.
abbrev pub store_string : Json → (current : Result String) → Result String
store_string _ (err e) = err e
store_string (str s) (ok current) = ok s
store_string null (ok current) = ok current
store_string _ (ok current) = err (message "json: cannot unmarshal into Go value of type string")

unfoldable pub string_field : String → List (String × Json) → Result String → Result String
string_field name [] current = current
string_field name ((k, v) ∷ fs) current =
    string_field name fs (if equal_fold k name then store_string v current else current)

-- `json.Unmarshal` of a tree into a struct, as far as one string field goes; null leaves the struct.
unfoldable pub decode_string : String → Json → Result String
unfolding string_field
decode_string name (obj fs) = string_field name (fields_of fs) (ok "")
decode_string name null = ok ""
decode_string name _ = err (message "json: cannot unmarshal into Go value of a struct type")

abbrev pub bind_result : {A B : Type 0} → Result A → (A → Result B) → Result B
bind_result (ok a) f = f a
bind_result (err e) f = err e

-- `json.Unmarshal(bytes, &struct)`, one string field of it.
abbrev pub unmarshal_string : Codec → (name content : String) → Result String
unmarshal_string codec name content = bind_result (codec.parse content) (decode_string name)
