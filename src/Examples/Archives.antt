-- ===== src/Examples/Archives.antt =====
-- The theorem on the places in the archive at a concrete input.
use service_discover.Common.{[], ◌∷◌, ◌≡◌, refl}
use service_discover.Errors.{message}
use service_discover.World.{FileInfo, tar_copy}
use service_discover.Prog.{returns, fails}
use service_discover.Encrypter.Writer.{add_file}
use service_discover.Encrypter.Writer.Places.{header_call, add_file-places}
use service_discover.Examples.{quiet}

abbrev key_info : FileInfo
key_info = record { name = "gossip123"; size = 44; mode = 384 }

add_file-places_example :
    (add_file "/tmp/gossip123" key_info "gossip-key" "/" quiet []
      ≡ (returns tt, tar_copy "/tmp/gossip123" ∷ header_call key_info "gossip-key" ∷ []))
    × (add_file "/tmp/gossip123" key_info "gossip-key" "" quiet []
        ≡ (fails (message "Rel: can't make . relative to /"), []))
add_file-places_example = add_file-places "/tmp/gossip123" key_info "gossip-key" quiet [] refl refl
