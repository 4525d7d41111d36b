-- ===== src/Term.antt =====
-- pkg/term/term_unix.go: the terminal. Its raw state and its buffers are the environment's.
use service_discover.Common.{String, if◌then◌else◌}
use service_discover.Errors.{Error, not_terminal, error_text, Result}
use service_discover.World.{is_terminal, make_raw, term_close, term_write, read_line}
use service_discover.Prog.{Prog, ask, check, pure, fail, panic, deferring, either, ◌>>=◌, ◌>>◌}

abbrev pub line_break : String
line_break = "\n"

-- `New` on standard input, whose descriptor is 0, and `TermUIProvider.Get`.
unfoldable pub new_terminal : Prog Error (Unit {0})
new_terminal = do
  terminal ← ask is_terminal
  if terminal then check (ask make_raw) else fail (not_terminal 0)

-- `MustRead`
unfoldable pub must_read : Prog Error (Result String) → Prog Error String
must_read m = do out ← m; either out pure (λ e. panic (error_text e))

-- `MustRead(ui.ReadLine())`
abbrev pub must_read_line : Prog Error String
must_read_line = must_read (ask read_line)

-- `MustWrite(fmt.Fprint(ui, text))`
unfoldable pub must_write : String → Prog Error (Unit {0})
must_write text = do
  written ← ask (term_write text)
  either written pure (λ e. panic (error_text e))

-- A terminal that is open while the steps run: `ui, err := New(...); defer ui.Close()`.
abbrev pub with_terminal : {A : Type 0} → Prog Error A → Prog Error A
with_terminal m = do new_terminal; deferring m term_close
