-- ===== src/Agent/Removal.antt =====
-- cmd/agent/command/setup/setup.go: the temporary key does not stay.
use service_discover.Prog.Triple.{Triple}
