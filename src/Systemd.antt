-- ===== src/Systemd.antt =====
-- pkg/systemd/util.go. The D-Bus connection is the environment's; `unit_result` receives from the
-- channel that `StartUnit` was given.
use service_discover.Common.{String, ◌<>◌, ◌is◌, if◌then◌else◌}
use service_discover.Errors.{Error, message, wrapped, error_text}
use service_discover.World.{dbus_connect, start_unit, unit_result, enable_unit, dbus_close}
use service_discover.Prog.{Prog, ask, check, pure, fail, map_error, deferring, ◌>>=◌, ◌>>◌}

-- `StartSystemdUnit`
unfoldable pub start_systemd_unit : (unit : String) → Prog Error (Unit {0})
start_systemd_unit unit = do
  map_error (check (ask dbus_connect)) (wrapped "unable to establish connection to any D-Bus")
  deferring
      (do
        map_error (check (ask (start_unit unit "replace")))
            (λ _. message ("unable to launch systemd unit " <> unit))
        output ← ask unit_result
        if output is "done"
            then pure tt
            else fail (
                message (
                  "systemd unit startup finished with a code different than 'done'. Systemd returned: "
                  <> output)))
      dbus_close

-- `EnableSystemdUnit`
unfoldable pub enable_systemd_unit : (unit : String) → Prog Error (Unit {0})
enable_systemd_unit unit = do
  map_error (check (ask dbus_connect))
      (λ e. message ("unable to establish connection to any D-Bus\n" <> error_text e))
  deferring (check (ask (enable_unit unit))) dbus_close
