-- ===== src/Steps/Unlocking.antt =====
-- What has to come behind the opening of the cluster credential, which cmd/server and cmd/agent read
-- with pkg/encrypter/reader.go.
use service_discover.Common.{String, Bool, List, ◌∷◌, ◌≡◌, refl, inl, inr, sym, subst}
use service_discover.Errors.{Error, Result, ok, Result-cases}
use service_discover.World.{Call, Env, Item, open_file, armor_decode, read_message}
use service_discover.Prog.{Prog, running}
use service_discover.Prog.Emits.{Emits}
use service_discover.Prog.Triple.{Triple}
use service_discover.Prog.Order.{IsAny, Ordered, OrderedHappened, before, behind}
use service_discover.Encrypter.Reader.{new_reader, pass_generator}

-- The calls that open a credential.
abbrev pub IsOpening : Call → Type 0
IsOpening (open_file _) = Unit
IsOpening (armor_decode _) = Unit
IsOpening (read_message _ _) = Unit
IsOpening _ = ⊥

-- `Has`: the items of the credential hold the files that were asked for.
module _ (env : Env) (Has : List Item → Type 0) where
  -- The message was decrypted, and has the files.
  abbrev pub Opens : (before : List Call) → Call → Type 0
  Opens h (read_message body prompt) =
      (items : List Item) × ((env.reply h (read_message body prompt) ≡ ok items) × Has items)
  Opens h _ = ⊥

  -- Each call of the history is one that opens a credential, or it comes behind one that did.
  abbrev pub Unlocked : List Call → Type 0
  Unlocked = Ordered IsOpening Opens

  abbrev pub Open : List Call → Type 0
  Open = OrderedHappened IsOpening Opens

  -- The last call decrypted the items.
  pub record Decrypted (items : List Item) (h : List Call) : Type 0 where
    earlier : List Call
    body : String
    prompt : Bool → Result String × Bool
    latest : h ≡ read_message body prompt ∷ earlier
    replied : env.reply earlier (read_message body prompt) ≡ ok items
    unlocked : Unlocked earlier

  pub Decrypted-Unlocked : (items : List Item) (h : List Call) → Decrypted items h → Unlocked h
  Decrypted-Unlocked items h d = subst Unlocked (sym d.latest) (inl tt, d.unlocked)

  pub Decrypted-Open : (items : List Item) (h : List Call) → Has items → Decrypted items h → Open h
  Decrypted-Open items h f d =
      subst Open (sym d.latest) ((inl tt, d.unlocked), inl (items, (d.replied, f)))

  pub new_reader-Triple :
      (reader passphrase : String)
      → Triple env Unlocked (new_reader reader passphrase) Decrypted Unlocked
  unfolding new_reader running
  new_reader-Triple reader passphrase = record {
    at = λ h o. elim (Result-cases (env.reply h (armor_decode reader))) [
      | inl (body, e) ↦
          rw e
            (elim (Result-cases (
              env.reply (armor_decode reader ∷ h)
                (read_message body (pass_generator passphrase)))) [
                  | inl (items, f) ↦ rw f (record {
                    earlier = armor_decode reader ∷ h;
                    body = body;
                    prompt = pass_generator passphrase;
                    latest = refl;
                    replied = f;
                    unlocked = (inl tt, o);
                  })
                  | inr (x, f) ↦ rw f (inl tt, (inl tt, o))
                ])
      | inr (x, e) ↦ rw e (inl tt, o)
    ];
  }

  pub opening :
      {A : Type 0} (m : Prog Error A)
      → Emits IsOpening m
      → Triple env Unlocked m (λ _. Unlocked) Unlocked
  opening = before IsOpening Opens env

  pub opened :
      {A : Type 0} (m : Prog Error A) → Emits IsAny m → Triple env Open m (λ _. Open) Unlocked
  opened = behind IsOpening Opens env
