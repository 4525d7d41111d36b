-- ===== src/Command/BootstrapToken/Wrapper.antt =====
-- pkg/command/bootstrap_token.go: `OutputWrapper`, the writer behind the prompt of a setup script.
use service_discover.Common.{
  ℕ, ◌+◌, ◌-◌, ◌≤◌, ◌&&◌, ◌==◌, Option, some, List, [], ◌∷◌, ◌≡◌, ◌⊎◌, inl, inr, arith, length,
  if◌then◌else◌, Bool-cases,
}
use service_discover.Errors.{Error}

-- `bytes.ReplaceAll(buffer, []byte("\r\n"), []byte(""))`
unfoldable pub remove_crlf : List ℕ → List ℕ
remove_crlf [] = []
remove_crlf (c ∷ []) = c ∷ []
remove_crlf (c ∷ d ∷ bytes) =
    let without = remove_crlf bytes in
    let rest = remove_crlf (d ∷ bytes) in if (c == 13) && (d == 10) then without else c ∷ rest

-- An `io.Writer`: how many bytes it took, and its error.
abbrev pub Writer : Type 0
Writer = List ℕ → ℕ × Option Error

-- `OutputWrapper.Write`: what is left out is reported as written.
unfoldable pub write_wrapped : Writer → Writer
write_wrapped write buffer =
    let replaced = remove_crlf buffer in
    let (count, error) = write replaced in (count + (length buffer - length replaced), error)

-- The contract of `io.Writer`: no more than the buffer is reported, and no less without an error.
pub record IsWriter (write : Writer) : Type 0 where
  pub bounded : (buffer : List ℕ) → (write buffer).0 ≤ length buffer
  pub complete :
      (buffer : List ℕ)
      → ((write buffer).0 ≡ length buffer) ⊎ ((e : Error) × ((write buffer).1 ≡ some e))

length-remove_crlf : (bytes : List ℕ) → length (remove_crlf bytes) ≤ length bytes
unfolding remove_crlf
length-remove_crlf [] = omega arith
length-remove_crlf (c ∷ []) = omega arith
length-remove_crlf (c ∷ d ∷ bytes) = elim (Bool-cases ((c == 13) && (d == 10))) [
  | inl b ↦ rw b (omega (arith, length-remove_crlf bytes))
  | inr b ↦ rw b (omega (arith, length-remove_crlf (d ∷ bytes)))
]

-- `OutputWrapper` keeps the contract of `io.Writer` if the writer inside does: it never reports more
-- bytes than it was given, and without an error it reports them all, although it writes fewer.
pub write_wrapped-IsWriter : (write : Writer) → IsWriter write → IsWriter (write_wrapped write)
unfolding write_wrapped
write_wrapped-IsWriter write w = record {
  bounded = λ buffer. omega (arith, w.bounded (remove_crlf buffer), length-remove_crlf buffer);
  complete = λ buffer. elim (w.complete (remove_crlf buffer)) [
    | inl all ↦ inl (omega (arith, all, length-remove_crlf buffer))
    | inr failed ↦ inr failed
  ];
}
