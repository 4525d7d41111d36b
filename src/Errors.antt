-- ===== src/Errors.antt =====
-- Go's error values and the ways the code builds and inspects them: `errors.New`,
-- `fmt.Errorf("%w")`, `errors.WithMessage`, `errors.Is`, `errors.As`. A call that can fail gives a
-- `Result`.
use service_discover.Common.{
  ℕ, String, ◌<>◌, Bool, false, ◌||◌, Option, none, some, ◌==◌, ◌≡◌, ◌⊎◌, inl, inr, refl,
}
use service_discover.Text.{itoa}

-- The error variables that the code compares by identity.
pub data Sentinel : Type 0 where
  parse_failed missing_field : Sentinel
  unexpected_count no_urls connection_nil connection_failed server_not_found : Sentinel
  token_not_found token_not_ensured redacted_secret : Sentinel
  unable_to_read unable_to_write unknown_config : Sentinel
  key_incorrect : Sentinel
  invalid_syntax value_out_of_range : Sentinel

-- `exit_error` is an `*exec.ExitError` with its captured stderr, `not_terminal` a
-- `term.NotATerminalError`, `status_error` an `api.StatusError`; `around a e b` is
-- `Errorf("a%wb", e)`, `both` is `Errorf("%w: %w")`, `joined` is `Join`.
pub data Error : Type 0 where
  message : String → Error
  sentinel : Sentinel → Error
  around : (before : String) → Error → (behind : String) → Error
  both : Error → Error → Error
  joined : Error → Error → Error
  exit_error : (text stderr : String) → Error
  not_terminal : ℕ → Error
  status_error : (code : ℕ) (body : String) → Error
  not_exist : String → Error

-- `Errorf("s: %w", e)`, and `WithMessage(e, s)`
abbrev pub wrapped : String → Error → Error
wrapped s e = around (s <> ": ") e ""

-- `Errorf("%w: %s", e, s)`
abbrev pub detail : Error → String → Error
detail e s = around "" e (": " <> s)

pub data Result (A : Type 0) : Type 0 where
  ok : (value : A) → Result A
  err : (error : Error) → Result A

pub Result-cases :
    {A : Type 0} (r : Result A) → ((a : A) × (r ≡ ok a)) ⊎ ((e : Error) × (r ≡ err e))
Result-cases (ok a) = inl (a, refl)
Result-cases (err e) = inr (e, refl)

-- The identity of an error variable, as a number.
abbrev pub identity : Sentinel → ℕ
identity parse_failed = 0
identity missing_field = 1
identity unexpected_count = 2
identity no_urls = 3
identity connection_nil = 4
identity connection_failed = 5
identity server_not_found = 6
identity token_not_found = 7
identity token_not_ensured = 8
identity redacted_secret = 9
identity unable_to_read = 10
identity unable_to_write = 11
identity unknown_config = 12
identity key_incorrect = 13
identity invalid_syntax = 14
identity value_out_of_range = 15

abbrev pub same_sentinel : Sentinel → Sentinel → Bool
same_sentinel s t = identity s == identity t

-- `errors.Is` with an error variable.
unfoldable pub is_error : Error → Sentinel → Bool
is_error (sentinel s) t = same_sentinel s t
is_error (around a e b) t = is_error e t
is_error (both e f) t = is_error e t || is_error f t
is_error (joined e f) t = is_error e t || is_error f t
is_error _ t = false

abbrev pub or_left : {A : Type 0} → Option A → Option A → Option A
or_left (some a) o = some a
or_left none o = o

-- `errors.As` with an `*exec.ExitError`: its stderr.
unfoldable pub as_exit_error : Error → Option String
as_exit_error (exit_error t s) = some s
as_exit_error (around a e b) = as_exit_error e
as_exit_error (both e f) = or_left (as_exit_error e) (as_exit_error f)
as_exit_error (joined e f) = or_left (as_exit_error e) (as_exit_error f)
as_exit_error _ = none

-- `errors.As` with a `term.NotATerminalError`.
unfoldable pub as_not_terminal : Error → Option ℕ
as_not_terminal (not_terminal n) = some n
as_not_terminal (around a e b) = as_not_terminal e
as_not_terminal (both e f) = or_left (as_not_terminal e) (as_not_terminal f)
as_not_terminal (joined e f) = or_left (as_not_terminal e) (as_not_terminal f)
as_not_terminal _ = none

pub record Status : Type 0 where
  pub code : ℕ
  pub body : String

-- `errors.As` with an `api.StatusError`.
unfoldable pub as_status : Error → Option Status
as_status (status_error c b) = some (record { code = c; body = b })
as_status (around a e b) = as_status e
as_status (both e f) = or_left (as_status e) (as_status f)
as_status (joined e f) = or_left (as_status e) (as_status f)
as_status _ = none

abbrev pub sentinel_text : Sentinel → String
sentinel_text parse_failed = "unable to parse local config"
sentinel_text missing_field = "missing required field in localconfig"
sentinel_text unexpected_count = "unexpected ldap result count"
sentinel_text no_urls = "no ldap URLs defined in localconfig"
sentinel_text connection_nil = "ldap connection returned nil"
sentinel_text connection_failed = "failed to connect to ldap"
sentinel_text server_not_found = "server not found on LDAP"
sentinel_text token_not_found = "service token not found"
sentinel_text token_not_ensured = "does not exist: run 'service-token ensure' before 'prune-legacy'"
sentinel_text redacted_secret = "SecretID is redacted: CONSUL_HTTP_TOKEN needs acl:write"
sentinel_text unable_to_read = "unable to read /etc/zextras/service-discover/config.json"
sentinel_text unable_to_write = "unable to write /etc/zextras/service-discover/config.json"
sentinel_text unknown_config = "unknown configuration"
sentinel_text key_incorrect = "openpgp: incorrect key"
sentinel_text invalid_syntax = "invalid syntax"
sentinel_text value_out_of_range = "value out of range"

-- The method `Error()`.
unfoldable pub error_text : Error → String
unfolding itoa
error_text (message s) = s
error_text (sentinel s) = sentinel_text s
error_text (around a e b) = a <> error_text e <> b
error_text (both e f) = error_text e <> ": " <> error_text f
error_text (joined e f) = error_text e <> "\n" <> error_text f
error_text (exit_error t s) = t
error_text (not_terminal n) = "the provided file descriptor (" <> itoa n <> ") is not a terminal"
error_text (status_error c b) = "Unexpected response code: " <> itoa c <> " (" <> b <> ")"
error_text (not_exist s) = s

-- `errors.Is(e, os.ErrNotExist)`
unfoldable pub is_not_exist : Error → Bool
is_not_exist (not_exist s) = Bool.true
is_not_exist (around a e b) = is_not_exist e
is_not_exist (both e f) = is_not_exist e || is_not_exist f
is_not_exist (joined e f) = is_not_exist e || is_not_exist f
is_not_exist _ = false

-- `errors.Join(err, closeErr)`
abbrev pub join_errors : Result (Unit {0}) → Result (Unit {0}) → Result (Unit {0})
join_errors (err e) (err f) = err (joined e f)
join_errors (err e) (ok _) = err e
join_errors (ok _) r = r
