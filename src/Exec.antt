-- ===== src/Exec.antt =====
-- pkg/exec/exec.go. A command is its name and its arguments.
use service_discover.Common.{String, ◌<>◌, List, none, some}
use service_discover.FilePath.{dir}
use service_discover.Errors.{Error, message, error_text, as_exit_error}
use service_discover.World.{executable, chdir, command_output}
use service_discover.Prog.{Prog, ask, check, ◌>>=◌, ◌>>◌}

-- `InPath`: the command runs in `path`; only a success changes the directory back.
unfoldable pub in_path :
    (name : String) → (args : List String) → (path : String) → Prog Error (Unit {0})
in_path name args path = do
  execution_path ← check (ask executable)
  check (ask (chdir path))
  _ ← check (ask (command_output name args))
  check (ask (chdir (dir execution_path)))

-- `ErrorFromStderr`
unfoldable pub error_from_stderr : Error → (reason : String) → Error
error_from_stderr e reason =
    let stderr : String = elim (as_exit_error e) [ none ↦ error_text e | some s ↦ s ] in
    message (reason <> (": " <> stderr))
