-- ===== src/Parser.antt =====
-- pkg/parser/parser.go: the decoder of the flag for the output format. The tokens are the kong
-- library's: a format token holds a text or a value of another type.
use service_discover.Common.{String, ◌<>◌, ◌is◌, Option, none, some, if◌then◌else◌}
use service_discover.Errors.{message, Result, ok, err}
use service_discover.Formatter.{OutputFormat, plain, json}

pub data Token : Type 0 where
  other_type : Token
  text_value : String → Token
  other_value : (shown : String) → Token

module _ (to_lower quoted : String → String) where
  abbrev format_of : String → Result (Option OutputFormat)
  format_of value =
      if value is "plain"
      then ok (some plain)
      else if value is "json"
      then ok (some json)
      else err (message ("formatType value must be plain or json, but got " <> quoted value))

  -- `Decode`: the format that the target is set to, if it is set. `to_lower` is `strings.ToLower`,
  -- `quoted` prints a text with `%q`.
  unfoldable pub decode_format : Token → Result (Option OutputFormat)
  decode_format other_type = ok none
  decode_format (text_value value) = format_of (to_lower value)
  decode_format (other_value shown) = err (message ("expected string but got " <> shown))
