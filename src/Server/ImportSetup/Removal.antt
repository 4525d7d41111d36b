-- ===== src/Server/ImportSetup/Removal.antt =====
-- cmd/server/command/setup/importsetup.go: the key of the certification authority does not stay.
use service_discover.Common.{String, List, ◌≡◌, ◌⊎◌}
use service_discover.World.{Call, Env}
use service_discover.Prog.{Prog, ◌>>◌}
use service_discover.Prog.Emits.{Emits}
use service_discover.Prog.Triple.{Triple}
use service_discover.Prog.Files.{FileState, absent, torn, file}

module _ (env : Env) (start : String → FileState) (key : String) where
  module _ (old : FileState) where
    abbrev Untouched : List Call → Type 0
    Untouched h = file env start key h ≡ old

    -- The file is as it was, or a write of it failed, or it is absent.
    abbrev pub IsCleared : List Call → Type 0
    IsCleared h =
        (file env start key h ≡ old)
        ⊎ ((file env start key h ≡ torn) ⊎ (file env start key h ≡ absent))
