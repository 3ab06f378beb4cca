-- ===== src/Client/Examples/RemoteSpool.antt =====
-- The toy client is made for the first time.
use catshadow.Prelude.{
  ◌≡◌, refl, Bytes, [], ◌∷◌, Option, none, some, Result, ok, err, replicate, lookup, insert, erase,
  arith, string_comparable, length, ◌⊎◌, ℕ, sym, ap, ◌∙◌,
}
use catshadow.Payload.{copy_bytes}
use catshadow.Disk.{
  Disk, Faults, new_state_writer, stretch_key, write_state, encrypt_state_file, encrypt_state,
  open_tmp, write_tmp, install, rename,
}
use catshadow.Contact.{Err, SpoolReadDescriptor}
use catshadow.Client.{
  Client, Env, State, done, ◌>>=◌, pure, gets, modify, save, snapshot, contacts_of,
}
use catshadow.Client.Encoding.{marshal_state, marshal_contacts}
use catshadow.Client.Startup.{new, new_client, restore}
use catshadow.Client.RemoteSpool.{
  SpoolService, first_state, save_and_create, create_remote_spool, new_client_and_remote_spool,
}
use catshadow.Client.RemoteSpool.Saved.{
  Yields, FailsWith, with_spool, found_on, new_client_and_remote_spool-found,
}
use catshadow.Client.Examples.{env, toy_crypto, reader, no_faults}

abbrev marshal_spool : Option SpoolReadDescriptor → Result Bytes Err
marshal_spool none = ok []
marshal_spool (some d) = ok (1 ∷ [])

abbrev unmarshal_spool : Bytes → Option (State ℕ)
unmarshal_spool [] = some (first_state env)
unmarshal_spool (x ∷ b) = some (with_spool env [] reader)

abbrev fresh_env : Env ℕ
fresh_env = record env {
  state_codec = record env.state_codec { marshal = λ t. marshal_spool t.spool_read_descriptor };
  crypto = record toy_crypto { unmarshal_state = unmarshal_spool };
  state_worker = record { state_file = "state"; key = replicate 32 0 };
}

abbrev session : SpoolService
session = record {
  get_service = ok (record { name = "spool"; provider = "p1" });
  new_spool_read_descriptor = λ name provider. ok reader;
}

abbrev faults : Faults
faults = record no_faults { nonce = ok (replicate 24 7) }

abbrev no_files : Disk
no_files = record { files = []; past = [] }

abbrev made : Client ℕ
made =
    (save_and_create fresh_env faults session faults
      (new_client fresh_env (first_state fresh_env) no_files)).1

same_nonce : (nonce : Bytes) → faults.nonce ≡ ok nonce → replicate 24 7 ≡ nonce
same_nonce nonce e = ground (arith, e)

same_spool : (d : SpoolReadDescriptor) → Yields fresh_env [] session d → reader ≡ d
same_spool d (desc, e, e') = ground (arith, e')

reads_first :
    (b : Bytes) → marshal_spool none ≡ ok b → unmarshal_spool b ≡ some (first_state fresh_env)
reads_first b e = let same : [] ≡ b = ground (arith, e) in ap unmarshal_spool (sym same)

reads_reader :
    (d : SpoolReadDescriptor)
    → reader ≡ d
    → (b : Bytes) → marshal_spool (some d) ≡ ok b
    → unmarshal_spool b ≡ some (with_spool fresh_env [] d)
reads_reader d e b f =
    let same : 1 ∷ [] ≡ b = ground (arith, f) in
    ap unmarshal_spool (sym same) ∙ ap (λ x. some (with_spool fresh_env [] x)) e

made_in_full :
    new_client_and_remote_spool fresh_env none faults session faults no_files
    ≡ (done (ok made), made.disk)
unfolding marshal_state marshal_contacts new_client_and_remote_spool new new_client restore
    save_and_create create_remote_spool save write_state encrypt_state_file encrypt_state open_tmp
    write_tmp install rename snapshot contacts_of ◌>>=◌ pure gets modify lookup insert erase
made_in_full = refl

new_client_and_remote_spool-found_example :
    ((e : Err) × (◌≡◌ {A = Option Err} none (some e))
      × (◌≡◌ {A = Result (Client ℕ) Err} (ok made) (err e))
      × (made.disk ≡ no_files))
    ⊎ ((◌≡◌ {A = Option Err} none none)
        × (((e : Err) × FailsWith fresh_env [] session e
              × (◌≡◌ {A = Result (Client ℕ) Err} (ok made) (err e))
              × (found_on fresh_env [] made.disk
                  ≡ some (ok (fresh_env.state_worker, first_state fresh_env))))
            ⊎ ((s : SpoolReadDescriptor) × (c : Client ℕ) × Yields fresh_env [] session s
                × (◌≡◌ {A = Result (Client ℕ) Err} (ok made) (ok c))
                × (c.spool_read_descriptor ≡ some s)
                × (found_on fresh_env [] made.disk
                    ≡ some (ok (fresh_env.state_worker, with_spool fresh_env [] s))))))
unfolding new_state_writer stretch_key copy_bytes marshal_state marshal_contacts
new_client_and_remote_spool-found_example =
    new_client_and_remote_spool-found fresh_env [] none faults faults session no_files made.disk
      (ok made) refl reads_first (λ d y. reads_reader d (same_spool d y))
      (λ nonce e. ap length (sym (same_nonce nonce e)))
      (λ nonce e. ap length (sym (same_nonce nonce e))) made_in_full
