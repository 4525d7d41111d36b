-- ===== src/Formatter.antt =====
-- pkg/formatter/formatter.go. A formatter is its two renderings.
use service_discover.Common.{String}
use service_discover.Errors.{message, Result, ok, err}

-- `OutputFormat` is an `int`: `other` stands for the values that have no name.
pub data OutputFormat : Type 0 where
  plain json other : OutputFormat

pub record Formatter : Type 0 where
  pub plain_render : Result String
  pub json_render : Result String

-- `EmptyFormatter`
abbrev pub empty_formatter : Formatter
empty_formatter = record { plain_render = ok ""; json_render = ok "{}" }

unfoldable pub render : Formatter → OutputFormat → Result String
render f plain = f.plain_render
render f json = f.json_render
render f other = err (message "The passed formatting option is not valid")
