-- ===== src/Daemon/Ports.antt =====
-- cmd/service-discoverd/service-discoverd.go: what `addGrpcTLS` does to main.json.
use service_discover.Common.{
  String, none, some, List, [], ◌∷◌, ◌≡◌, ◌⊎◌, ◌≢◌, refl, ap, ◌∙◌, inl, inr, Option-cases,
}
use service_discover.Common.Dict.{lookup, insert, lookup-insert, lookup-insert_other}
use service_discover.Errors.{ok}
use service_discover.Json.{Json, Codec, num, obj, object, fields_of}
use service_discover.FilePath.{clean}
use service_discover.World.{Call, Env, read_file, write_file, print}
use service_discover.Prog.{returns, running}
use service_discover.Daemon.{with_grpc_tls, as_object, unmarshal_map, patch_main, add_grpc_tls}

fields_of-object : (fs : List (String × Json)) → fields_of (object fs) ≡ fs
fields_of-object [] = refl
fields_of-object ((k, v) ∷ fs) = ap (λ gs. (k, v) ∷ gs) (fields_of-object fs)

-- What main.json holds behind a patch that had something to do, for the ports that it held before.
pub record IsPatched (main ports main' : List (String × Json)) : Type 0 where
  pub ports' : List (String × Json)
  pub stored : as_object (lookup "ports" main') ≡ some ports'
  pub port : lookup "grpc_tls" ports' ≡ some (num "8503")
  pub other_ports : (k : String) → "grpc_tls" ≢ k → lookup k ports' ≡ lookup k ports
  pub other_fields : (k : String) → "ports" ≢ k → lookup k main' ≡ lookup k main
  pub again : with_grpc_tls main' ports' ≡ none

pub with_grpc_tls-found :
    (main ports : List (String × Json)) (v : Json)
    → lookup "grpc_tls" ports ≡ some v
    → with_grpc_tls main ports ≡ none
unfolding with_grpc_tls
with_grpc_tls-found main ports v e = rw (e, with_grpc_tls) refl

module _ (main ports : List (String × Json)) (fresh : lookup "grpc_tls" ports ≡ none) where
  abbrev new_ports : List (String × Json)
  new_ports = insert "grpc_tls" (num "8503") ports

  abbrev new_main : List (String × Json)
  new_main = insert "ports" (obj (object new_ports)) main

  port_there : lookup "grpc_tls" new_ports ≡ some (num "8503")
  port_there = lookup-insert "grpc_tls" "grpc_tls" (num "8503") ports

  patched : with_grpc_tls main ports ≡ some new_main
  unfolding with_grpc_tls
  patched = rw (fresh, with_grpc_tls) refl

  new_main-IsPatched : IsPatched main ports new_main
  new_main-IsPatched = record {
    ports' = new_ports;
    stored =
        ap as_object (lookup-insert "ports" "ports" (obj (object new_ports)) main)
        ∙ ap some (fields_of-object new_ports);
    port = port_there;
    other_ports = λ k n. lookup-insert_other "grpc_tls" k (num "8503") ports n;
    other_fields = λ k n. lookup-insert_other "ports" k (obj (object new_ports)) main n;
    again = with_grpc_tls-found new_main new_ports (num "8503") port_there;
  }

-- If main.json holds an object whose ports are an object, and the file can be read and written and
-- what is written printed, `addGrpcTLS` returns. If the ports have a `grpc_tls`, all that it does
-- is to read the file and to print that the port is there. Otherwise it reads the file and writes
-- to its path, with mode 0644, what an object is printed as that has `grpc_tls` with 8503 in its
-- ports, the other ports and the other fields as they were, and for which a second run has nothing
-- to write.
pub add_grpc_tls-IsPatched :
    (codec : Codec) (printed : Json → String) (main ports : List (String × Json))
    (text path : String) (env : Env) (h : List Call)
    → unmarshal_map codec text ≡ ok main
    → as_object (lookup "ports" main) ≡ some ports
    → ((v : Json) → codec.print_indent v ≡ ok (printed v))
    → env.reply h (read_file (clean path)) ≡ ok text
    → ((content : String)
        → env.reply (read_file (clean path) ∷ h) (write_file path content 0o644) ≡ ok tt)
    → ((v : Json) × ((lookup "grpc_tls" ports ≡ some v)
          × (add_grpc_tls codec path env h ≡ (
            returns tt,
            print "'grpc_tls' port already exists\n" ∷ read_file (clean path) ∷ h,
          ))))
      ⊎ ((main' : List (String × Json)) × ((lookup "grpc_tls" ports ≡ none)
            × (IsPatched main ports main'
                × (add_grpc_tls codec path env h ≡ (
                  returns tt,
                  write_file path (printed (obj (object main'))) 0o644 ∷ read_file (clean path) ∷ h,
                )))))
unfolding add_grpc_tls patch_main running
add_grpc_tls-IsPatched codec printed main ports text path env h parsed there prints held writes =
    elim (Option-cases (lookup "grpc_tls" ports)) [
      | inl e ↦ inr (
        new_main main ports e,
        (
          e,
          (
            new_main-IsPatched main ports e,
            rw (held, parsed, there, patched main ports e, prints, writes) refl,
          ),
        ),
      )
      | inr (v, e) ↦ inl (v, (e, rw (held, parsed, there, with_grpc_tls-found main ports v e) refl))
    ]
