-- ===== src/Examples/Files.antt =====
-- The theorems on the token file and on the writers at concrete inputs: an old file, and a disk that
-- takes every call.
use service_discover.Command.BootstrapToken.Wrapper.{
  Writer, IsWriter, write_wrapped, write_wrapped-IsWriter,
}
use service_discover.Common.{inl, refl, none, length, arith, String, [], ◌≡◌}
use service_discover.Prog.Triple.{Post}
use service_discover.Prog.Files.{FileState, holds, file}
use service_discover.Command.TokenFile.{write_token_file}
use service_discover.Command.TokenFile.Atomic.{Always, write_token_file-IsAtomic}
use service_discover.Examples.{quiet}

abbrev token_path : String
token_path = "/etc/carbonio/mailbox/token"

abbrev old_files : String → FileState
old_files path = holds "old"

write_token_file-IsAtomic_example :
    let ran = write_token_file token_path "new" "carbonio" quiet [] in
    Always quiet old_files token_path "new" (holds "old") [] ran.1
    × Post
        (λ _ h. file quiet old_files token_path h ≡ holds "new")
        (λ h. file quiet old_files token_path h ≡ holds "old")
        ran.0
        ran.1
write_token_file-IsAtomic_example =
    write_token_file-IsAtomic quiet old_files token_path "new" "carbonio" [] (λ h d p name e k. cc)

-- A writer that takes all that it is given.
abbrev take_all : Writer
take_all buffer = (length buffer, none)

write_wrapped-IsWriter_example : IsWriter (write_wrapped take_all)
write_wrapped-IsWriter_example =
    write_wrapped-IsWriter take_all
      (record { bounded = λ buffer. omega arith; complete = λ buffer. inl refl })
