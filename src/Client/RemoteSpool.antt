-- ===== src/Client/RemoteSpool.antt =====
-- client.go, `CreateRemoteSpool` and `NewClientAndRemoteSpool`: a client that is made for the first
-- time, with a spool of its own.
pub mod Saved
use catshadow.Prelude.{String, [], Option, none, some, Result, ok, err}
use catshadow.Disk.{Disk, Faults}
use catshadow.Contact.{Err, SpoolReadDescriptor}
use catshadow.Client.{
  Client, Env, M, Outcome, done, panicked, blocked, State, pure, ◌>>=◌, ◌>>◌, gets, modify, save,
}
use catshadow.Client.Startup.{new}

-- What `GetService` returns of a service.
pub record ServiceDescriptor : Type 0 where
  pub name : String
  pub provider : String

-- What the session yields: the spool service, and the descriptor of a new spool there.
pub record SpoolService : Type 0 where
  pub get_service : Result ServiceDescriptor Err
  pub new_spool_read_descriptor : String → String → Result SpoolReadDescriptor Err

module _ {R : Type 0} where
  -- `CreateRemoteSpool`, with the error that it returns. The descriptor that comes with an error is nil.
  unfoldable pub create_remote_spool : SpoolService → M R (Option Err)
  create_remote_spool session = elim session.get_service [
    | err e ↦ pure (some e)
    | ok desc ↦ do
      reader ← gets (λ c. c.spool_read_descriptor)
      elim reader [
        | some _ ↦ pure none
        | none ↦ elim (session.new_spool_read_descriptor desc.name desc.provider) [
          | err e ↦ pure (some e)
          | ok d ↦ do modify λ c. record c { spool_read_descriptor = some d }; pure none
        ]
      ]
  ]

module _ {R : Type 0} (env : Env R) where
  abbrev pub first_state : State R
  first_state = record {
    spool_read_descriptor = none;
    contacts = [];
    user = env.user;
    provider = env.provider;
    link_key = env.link_key;
    conversations = [];
  }

  -- `NewClientAndRemoteSpool` from the first `c.save()` on.
  unfoldable pub save_and_create : Faults → SpoolService → Faults → M R (Option Err)
  save_and_create faults session faults' = do
    save env faults
    e ← create_remote_spool session
    elim e [ some x ↦ pure (some x) | none ↦ (do save env faults'; pure none) ]

  -- What the caller gets, the client or an error, with the disk.
  abbrev pub answer : Outcome (Option Err) × Client R → Outcome (Result (Client R) Err) × Disk
  answer (done none, c) = (done (ok c), c.disk)
  answer (done (some e), c) = (done (err e), c.disk)
  answer (panicked p, c) = (panicked p, c.disk)
  answer (blocked, c) = (blocked, c.disk)

  -- The first argument is the error of `NewSession`.
  unfoldable pub new_client_and_remote_spool :
      Option Err → Faults → SpoolService → Faults → Disk → Outcome (Result (Client R) Err) × Disk
  new_client_and_remote_spool session_error faults session faults' disk =
      elim (new env session_error first_state disk) [
        | err e ↦ (done (err e), disk)
        | ok c ↦ answer (save_and_create faults session faults' c)
      ]
