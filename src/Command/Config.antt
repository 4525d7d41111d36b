-- ===== src/Command/Config.antt =====
-- pkg/command/config.go: the commands that get, set and list the configurations of a node.
pub mod RoundTrip
use service_discover.Common.{String, ◌<>◌, Bool, true, false, List, [], ◌∷◌, ◌is◌, if◌then◌else◌}
use service_discover.Errors.{
  Error, sentinel, both, detail, unable_to_read, unable_to_write, unknown_config, Result, ok,
}
use service_discover.Json.{Json, str, obj, object, arr, Items, nil, cons, Codec, unmarshal_string}
use service_discover.Formatter.{Formatter, OutputFormat, render}
use service_discover.World.{read_file, write_file, term_write}
use service_discover.Prog.{Prog, ask, check, pure, fail, map_error, result, ◌>>=◌, ◌>>◌}
use service_discover.Command.Credentials.{mutable_config}

abbrev pub mutable_config_file : String
mutable_config_file = "/etc/zextras/service-discover/config.json"

abbrev pub bind_address_name : String
bind_address_name = "bind-address"

-- The `default` of the switch on the configuration.
abbrev pub unknown : String → Prog Error (Unit {0})
unknown config = fail (detail (sentinel unknown_config) config)

-- `fmt.Fprint(v.writer, out)`
abbrev pub print_out : String → Prog Error (Unit {0})
print_out out = check (ask (term_write out))

module _ (codec : Codec) where
  -- The renderings of `getConfigOutput`.
  abbrev pub get_config_output : (bind_address : String) → Formatter
  get_config_output bind_address = record {
    plain_render = ok (if bind_address is "" then "" else bind_address <> "\n");
    json_render = codec.print (obj (object ((bind_address_name, str bind_address) ∷ [])));
  }

  -- The read and the decoding that `get` and `set` begin with.
  unfoldable pub read_config : Prog Error String
  read_config = do
    content ←
        map_error (check (ask (read_file mutable_config_file))) (both (sentinel unable_to_read))
    result (unmarshal_string codec "bind_addr" content)

  -- `GetConfig.Run`
  unfoldable pub get_config : (config : String) → OutputFormat → Prog Error (Unit {0})
  unfolding read_config
  get_config config format = do
    bind_address ← read_config
    if config is bind_address_name
        then (do out ← result (render (get_config_output bind_address) format); print_out out)
        else unknown config

  -- `SetConfig.Run`
  unfoldable pub set_config : (config value : String) → Prog Error (Unit {0})
  unfolding read_config
  set_config config value = do
    _ ← read_config
    if config is bind_address_name
        then (do
          content ← result (codec.print_indent (mutable_config value))
          map_error (check (ask (write_file mutable_config_file content 0o644)))
              (both (sentinel unable_to_write)))
        else unknown config

  -- The renderings of `listConfigOutput` for its only configuration.
  abbrev pub list_config_output : Formatter
  list_config_output = record {
    plain_render = ok (bind_address_name <> "\n");
    json_render = codec.print_indent (arr (cons (str bind_address_name) nil));
  }

  -- `ListConfig.Run`
  unfoldable pub list_config : OutputFormat → Prog Error (Unit {0})
  list_config format = do out ← result (render list_config_output format); print_out out
