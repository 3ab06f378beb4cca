-- ===== src/Client/RemoteSpool/Saved.antt =====
-- What the statefile holds after a client was made for the first time.
use catshadow.Prelude.{
  ◌≡◌, refl, sym, ap, ◌∙◌, subst, Bytes, Option, none, some, Result, ok, err, arith, length, ◌⊎◌,
  Result-cases, inl, inr,
}
use catshadow.Disk.{
  Disk, DiskError, Faults, StateWriter, nonce_size, new_state_writer, load_state_writer,
  write_state, encrypt_state_file, encrypt_state,
}
use catshadow.Disk.RoundTrip.{load_state_writer-write_state}
use catshadow.Contact.{Err, SpoolReadDescriptor}
use catshadow.Client.{
  Client, Env, M, Outcome, State, done, panicked, blocked, pure, ◌>>=◌, ◌>>◌, gets, modify, save,
  snapshot, contacts_of,
}
use catshadow.Client.Encoding.{marshal_state}
use catshadow.Client.Steps.{bind_inv, bind_done, save-Saves}
use catshadow.Client.Startup.{new, new_client, restore, allocated}
use catshadow.Client.RemoteSpool.{
  ServiceDescriptor, SpoolService, create_remote_spool, answer, first_state, save_and_create,
  new_client_and_remote_spool,
}

module _ {R : Type 0} (env : Env R) (passphrase : Bytes) where
  -- The client's writer was made with this passphrase.
  abbrev pub IsKeyed : Type 0
  IsKeyed = env.state_worker ≡ new_state_writer env.crypto env.state_worker.state_file passphrase

  -- What is written of the first state is read as the second.
  abbrev pub ReadsAs : State R → State R → Type 0
  ReadsAs s s' =
      (b : Bytes) → marshal_state env.state_codec s ≡ ok b → env.crypto.unmarshal_state b ≡ some s'

  -- This state, which has no contacts, is read back.
  abbrev pub ReadsBack : State R → Type 0
  ReadsBack s = ReadsAs s s

  -- A random source that does not fail fills the nonce.
  abbrev pub FillsNonce : Faults → Type 0
  FillsNonce io = (nonce : Bytes) → io.nonce ≡ ok nonce → length nonce ≡ nonce_size

  -- What a process finds that is started on this disk, or on a client's.
  abbrev pub found_on : Disk → Option (Result (StateWriter × State R) DiskError)
  found_on disk = load_state_writer env.crypto env.state_worker.state_file passphrase disk

  abbrev pub found_by : Client R → Option (Result (StateWriter × State R) DiskError)
  found_by c = found_on c.disk

  -- A save that returns has encoded the state and written it.
  save_returns :
      (faults : Faults) (c : Client R)
      → (save env faults c).0 ≡ done tt
      → (b nonce : Bytes) × (marshal_state env.state_codec (snapshot env c) ≡ ok b)
        × (faults.nonce ≡ ok nonce)
        × ((write_state env.crypto faults env.state_worker b c.disk).0 ≡ none)
        × ((save env faults c).1.disk ≡ (write_state env.crypto faults env.state_worker b c.disk).1)
  unfolding save write_state encrypt_state_file encrypt_state
  save_returns faults c e = elim (Result-cases (marshal_state env.state_codec (snapshot env c))) [
    | inr (x, f) ↦ absurd (ground (arith, e, f))
    | inl (b, f) ↦ elim (Result-cases faults.nonce) [
      | inr (x, n) ↦ absurd (ground (arith, e, f, n))
      | inl (nonce, n) ↦ (b, nonce, f, n, ground (arith, e, f), ground (arith, e, f))
    ]
  ]

  -- A save that returns is found, as it is read, by the next process that is given the
  -- passphrase.
  pub save-found :
      (faults : Faults) (c : Client R) (s : State R)
      → IsKeyed
      → ReadsAs (snapshot env c) s
      → FillsNonce faults
      → (save env faults c).0 ≡ done tt
      → found_by (save env faults c).1 ≡ some (ok (env.state_worker, s))
  save-found faults c s keyed reads fills e =
      let (b, nonce, marshalled, n, fine, disk) = save_returns faults c e in
      let w = new_state_writer env.crypto env.state_worker.state_file passphrase in
      ap (load_state_writer env.crypto env.state_worker.state_file passphrase) disk
      ∙ ap
          (λ x.
            load_state_writer env.crypto env.state_worker.state_file passphrase
              (write_state env.crypto faults x b c.disk).1)
          keyed
      ∙ load_state_writer-write_state env.crypto faults env.state_worker.state_file passphrase b
          nonce s c.disk n (fills nonce n) (reads b marshalled)
          (ap (λ x. (write_state env.crypto faults x b c.disk).0) (sym keyed) ∙ fine)
      ∙ ap (λ x. some (ok (x, s))) (sym keyed)

  -- The session makes a new spool with this descriptor.
  abbrev pub Yields : SpoolService → SpoolReadDescriptor → Type 0
  Yields session d =
      (desc : ServiceDescriptor) × (session.get_service ≡ ok desc)
      × (session.new_spool_read_descriptor desc.name desc.provider ≡ ok d)

  -- The session makes no spool, with this error.
  abbrev pub FailsWith : SpoolService → Err → Type 0
  FailsWith session e =
      (session.get_service ≡ err e)
      ⊎ ((desc : ServiceDescriptor) × (session.get_service ≡ ok desc)
          × (session.new_spool_read_descriptor desc.name desc.provider ≡ err e))

  abbrev pub with_spool : SpoolReadDescriptor → State R
  with_spool d = record (first_state env) { spool_read_descriptor = some d }

  -- A client without a spool gets one, or an error.
  create_remote_spool_lem :
      (session : SpoolService) (c : Client R)
      → c.spool_read_descriptor ≡ none
      → ((e : Err) × FailsWith session e × (create_remote_spool session c ≡ (done (some e), c)))
        ⊎ ((d : SpoolReadDescriptor) × Yields session d
            × (create_remote_spool session c
                ≡ (done none, record c { spool_read_descriptor = some d })))
  unfolding create_remote_spool ◌>>=◌ pure gets modify
  create_remote_spool_lem session c n = elim (Result-cases session.get_service) [
    | inr (e, f) ↦ inl (e, inl f, ground (arith, f))
    | inl (desc, f) ↦
        elim (Result-cases (session.new_spool_read_descriptor desc.name desc.provider)) [
          | inr (e, g) ↦ inl (e, inr (desc, f, g), ground (arith, f, g, n))
          | inl (d, g) ↦ inr (d, (desc, f, g), ground (arith, f, g, n))
        ]
  ]

  -- What follows the creation of the spool.
  abbrev finish : Faults → Option Err → M R (Option Err)
  finish faults' e = elim e [ some x ↦ pure (some x) | none ↦ (do save env faults'; pure none) ]

  abbrev create_and_save : Faults → SpoolService → M R (Option Err)
  create_and_save faults' session = create_remote_spool session >>= finish faults'

  -- The two ways in which the first start ends with an answer.
  save_and_create_lem :
      (faults faults' : Faults) (session : SpoolService) (c c' : Client R) (o : Option Err)
      → c.spool_read_descriptor ≡ none
      → save_and_create env faults session faults' c ≡ (done o, c')
      → let c₁ = (save env faults c).1 in
        ((save env faults c).0 ≡ done tt)
        × (((e : Err) × FailsWith session e × (o ≡ some e) × (c' ≡ c₁))
            ⊎ ((d : SpoolReadDescriptor) × Yields session d
                × (o ≡ none)
                × (save env faults' (record c₁ { spool_read_descriptor = some d })
                    ≡ (done tt, c'))))
  unfolding save_and_create pure
  save_and_create_lem faults faults' session c c' o n e =
      let (_, h, h') = bind_inv (save env faults) (λ _. create_and_save faults' session) o c c' e in
      let c₁ = (save env faults c).1 in
      let n' : c₁.spool_read_descriptor ≡ none = ground (arith, n, save-Saves env faults c) in
      (
        ap (λ r. r.0) h,
        elim (create_remote_spool_lem session c₁ n') [
          | inl (x, fails, f) ↦
              let r =
                sym (bind_done (create_remote_spool session) (finish faults') c₁ c₁ (some x) f)
                ∙ h' in
              inl (x, fails, ground (arith, r), ground (arith, r))
          | inr (d, yields, f) ↦
              let c₂ = record c₁ { spool_read_descriptor = some d } in
              let r =
                sym (bind_done (create_remote_spool session) (finish faults') c₁ c₂ none f) ∙ h' in
              let (_, g, g') = bind_inv (save env faults') (λ _. pure none) o c₂ c' r in
              inr (
                d,
                yields,
                ground (arith, g'),
                g ∙ ap (λ (x : Client R). (done tt, x)) (ap (λ r. r.1) g'),
              )
        ],
      )

  save_and_create-found :
      (faults faults' : Faults) (session : SpoolService) (disk : Disk) (c : Client R)
      (o : Option Err)
      → IsKeyed
      → ReadsBack (first_state env)
      → ((d : SpoolReadDescriptor) → Yields session d → ReadsBack (with_spool d))
      → FillsNonce faults
      → FillsNonce faults'
      → save_and_create env faults session faults' (allocated env (first_state env) disk)
        ≡ (done o, c)
      → ((e : Err) × FailsWith session e
          × (o ≡ some e)
          × (found_by c ≡ some (ok (env.state_worker, first_state env))))
        ⊎ ((d : SpoolReadDescriptor) × Yields session d
            × (o ≡ none)
            × (c.spool_read_descriptor ≡ some d)
            × (found_by c ≡ some (ok (env.state_worker, with_spool d))))
  unfolding snapshot contacts_of
  save_and_create-found faults faults' session disk c o keyed reads reads' fills fills' e =
      let c₀ = allocated env (first_state env) disk in
      let c₁ = (save env faults c₀).1 in
      let (returned, cases) = save_and_create_lem faults faults' session c₀ c o refl e in
      elim cases [
        | inl (x, fails, failed, same) ↦ inl (
          x,
          fails,
          failed,
          ap found_by same ∙ save-found faults c₀ (first_state env) keyed reads fills returned,
        )
        | inr (d, yields, fine, saved) ↦
            let (_, dd, same) = save-Saves env faults c₀ in
            let c₂ = record c₀ { disk = dd; spool_read_descriptor = some d } in
            let saved' : save env faults' c₂ ≡ (done tt, c) =
              subst
                (λ (x : Client R).
                  save env faults' (record x { spool_read_descriptor = some d }) ≡ (done tt, c))
                same saved in
            let (_, dd', same') = save-Saves env faults' c₂ in
            let last : (save env faults' c₂).1 ≡ c = ap (λ r. r.1) saved' in
            inr (
              d,
              yields,
              fine,
              ap (λ (x : Client R). x.spool_read_descriptor) (sym last ∙ same'),
              ap found_by (sym last)
                  ∙ save-found faults' c₂ (with_spool d) keyed (reads' d yields) fills'
                      (ap (λ r. r.0) saved'),
            )
      ]

  -- What the caller was given.
  answer_inv :
      (r : Outcome (Option Err) × Client R) (o : Result (Client R) Err) (d : Disk)
      → answer env r ≡ (done o, d)
      → (c : Client R) × (e : Option Err) × (r ≡ (done e, c))
        × (c.disk ≡ d)
        × (o ≡ (elim e [ none ↦ ok c | some x ↦ err x ]))
  answer_inv (done none, c) o d h = (c, none, refl, ground (arith, h), ground (arith, h))
  answer_inv (done (some x), c) o d h = (c, some x, refl, ground (arith, h), ground (arith, h))
  answer_inv (panicked p, c) o d h = absurd (ground (arith, h))
  answer_inv (blocked, c) o d h = absurd (ground (arith, h))

  -- If `NewClientAndRemoteSpool` returns, then either there was no session: it returns that error, and
  -- has not touched the disk. Or the session makes no spool: it returns that error, but the statefile
  -- is there all the same, and the next process finds a state without a spool. Or it returns a client
  -- with a spool that the session made, and the next process that is given the passphrase finds the
  -- state with that spool.
  pub new_client_and_remote_spool-found :
      (session_error : Option Err) (faults faults' : Faults) (session : SpoolService)
      (disk d : Disk) (o : Result (Client R) Err)
      → IsKeyed
      → ReadsBack (first_state env)
      → ((s : SpoolReadDescriptor) → Yields session s → ReadsBack (with_spool s))
      → FillsNonce faults
      → FillsNonce faults'
      → new_client_and_remote_spool env session_error faults session faults' disk ≡ (done o, d)
      → ((e : Err) × (session_error ≡ some e) × (o ≡ err e) × (d ≡ disk))
        ⊎ ((session_error ≡ none)
            × (((e : Err) × FailsWith session e
                  × (o ≡ err e)
                  × (found_on d ≡ some (ok (env.state_worker, first_state env))))
                ⊎ ((s : SpoolReadDescriptor) × (c : Client R) × Yields session s
                    × (o ≡ ok c)
                    × (c.spool_read_descriptor ≡ some s)
                    × (found_on d ≡ some (ok (env.state_worker, with_spool s))))))
  unfolding new_client_and_remote_spool new new_client restore
  new_client_and_remote_spool-found (some x) faults faults' session disk d o keyed reads reads'
        fills fills' e =
      inl (x, refl, ground (arith, e), ground (arith, e))
  new_client_and_remote_spool-found none faults faults' session disk d o keyed reads reads' fills
        fills' e =
      let c₀ = allocated env (first_state env) disk in
      let (c, e?, h, same, given) =
        answer_inv (save_and_create env faults session faults' c₀) o d e in
      inr (
        refl,
        elim (save_and_create-found faults faults' session disk c e? keyed reads reads' fills fills'
            h) [
              | inl (x, fails, failed, found) ↦
                  inl (x, fails, rw failed at given, ap found_on (sym same) ∙ found)
              | inr (s, yields, fine, reader, found) ↦
                  inr (s, c, yields, rw fine at given, reader, ap found_on (sym same) ∙ found)
            ],
      )
