-- ===== src/Client/Sound/Actions.antt =====
-- The client's basic actions keep its state sound.
use catshadow.Prelude.{
  ℕ, ◌≡◌, refl, sym, ◌∙◌, subst, String, Bytes, [], ◌∷◌, ◌++◌, Option, none, some, arith, lookup,
  insert, nat_comparable, Bool-cases, Option-cases, inl, inr, ◌==◌, ==_iff, ◌≤◌, ◌⊎◌, length-append,
  length, lookup-insert,
}
use catshadow.Disk.{Faults}
use catshadow.Queue.Refine.{HoldsCommands}
use catshadow.Contact.{Contact}
use catshadow.Conversation.{Message}
use catshadow.Client.{
  Client, Env, M, Op, Event, Fatal, done, panicked, ◌>>=◌, modify, load, store, emit, push_op,
  fatal, put_message, save, op_ch_capacity, retransmit, nil_pointer,
}
use catshadow.Client.Steps.{save-Saves, bind_done, bind_panicked}
use catshadow.Client.Sound.{
  IsSound, IsSoundContact, Stands, PointsInto, Fact, nothing, stands, insert-Extends,
  IsSoundFor-Extends, append-AllPointInto,
}
use catshadow.Client.Sound.Keeps.{
  Goes, Goes-quiet, Goes-refl, Goes-trans, Keeps, keeps_rules, Keeps-forget,
}

module _ {R : Type 0} where
  load_found :
      (p : ℕ) (k : Contact R) (c : Client R) → lookup p c.heap ≡ some k → load p c ≡ (done k, c)
  unfolding load
  load_found p k c e = ground (arith, e)

  load_missing :
      (p : ℕ) (c : Client R) → lookup p c.heap ≡ none → load p c ≡ (panicked nil_pointer, c)
  unfolding load
  load_missing p c e = ground (arith, e)

  -- The two uses of a pointer: with nothing known of the contact, and with its ID and nickname known.
  pub Keeps-load :
      {A : Type 0} (p : ℕ) (f : Contact R → M R A)
      → ((k : Contact R) → HoldsCommands k.outbound → Keeps (stands p k.id k.nickname) (f k))
      → Keeps nothing (load p >>= f)
  Keeps-load p f kf = record {
    at = λ c v h. elim (Option-cases (lookup p c.heap)) [
      | inl e ↦
          subst (λ r. Goes c r.1) (sym (bind_panicked (load p) f c c _ (load_missing p c e)))
            (Goes-refl c v)
      | inr (k, e) ↦
          subst (λ r. Goes c r.1) (sym (bind_done (load p) f c c k (load_found p k c e)))
            ((kf k (v.each p k e).queue).at c v
              (record { contact = k; at = e; same_id = refl; same_nickname = refl }))
    ];
  }

  pub Keeps-load_again :
      {A : Type 0} (p id : ℕ) (nickname : String) (f : Contact R → M R A)
      → ((k : Contact R)
          → HoldsCommands k.outbound
          → k.id ≡ id
          → k.nickname ≡ nickname
          → Keeps (stands p id nickname) (f k))
      → Keeps (stands p id nickname) (load p >>= f)
  Keeps-load_again p id nickname f kf = record {
    at = λ c v h.
        subst (λ r. Goes c r.1)
          (sym (bind_done (load p) f c c h.contact (load_found p h.contact c h.at)))
          ((kf h.contact (v.each p h.contact h.at).queue h.same_id h.same_nickname).at c v h);
  }

  pub Keeps-store :
      (p id : ℕ) (nickname : String) (k : Contact R)
      → HoldsCommands k.outbound
      → k.id ≡ id
      → k.nickname ≡ nickname
      → Keeps (stands p id nickname) (store p k)
  unfolding store
  Keeps-store p id nickname k valid e e' = record {
    at = λ c v h.
        let bigger = insert-Extends p k c.heap (record {
          contact = h.contact;
          at = h.at;
          same_id = h.same_id ∙ sym e;
          same_nickname = h.same_nickname ∙ sym e';
        }) in
        Goes-quiet (IsSoundFor-Extends v bigger (each c v h)) bigger refl;
  }
    where
      each :
          (c : Client R)
          → IsSound c
          → Stands p id nickname c.heap
          → (q : ℕ) (j : Contact R) → lookup q (insert p k c.heap) ≡ some j
          → IsSoundContact c.next_address q j
      each c v h q j at = elim (Bool-cases (p == q)) [
        | inl same ↦
            let where_ : p ≡ q = (==_iff p q).0 same in
            let who : k ≡ j = ground (arith, at, same, lookup-insert p q k c.heap) in
            record {
              queue = subst (λ (x : Contact R). HoldsCommands x.outbound) who valid;
              allocated = ground (arith, where_, (v.each p h.contact h.at).allocated);
            }
        | inr other ↦ v.each q j (ground (arith, at, other, lookup-insert p q k c.heap))
      ]

  fatal_state :
      (e : Fatal) (c : Client R)
      → ((f : Option Fatal) × ((fatal e c).1 ≡ record c { fatal_err = f })) ⊎ ((fatal e c).1 ≡ c)
  unfolding fatal
  fatal_state e c = elim (Option-cases c.fatal_err) [
    | inl n ↦ inl (some e, ground (arith, n))
    | inr (x, n) ↦ inr (ground (arith, n))
  ]

  push_op_state :
      (op : Op) (c : Client R)
      → ((push_op op c).1 ≡ c)
        ⊎ (((push_op op c).1 ≡ record c { op_ch = c.op_ch ++ op ∷ [] })
            × (length (c.op_ch ++ op ∷ []) ≤ op_ch_capacity))
  unfolding push_op
  push_op_state op c = ground (arith, length-append c.op_ch (op ∷ []))

  -- An operation that waits in the channel.
  pub push_op-Goes :
      (op : Op) (c : Client R) → IsSound c → PointsInto c.heap op → Goes c (push_op op c).1
  push_op-Goes op c v x = elim (push_op_state op c) [
    | inl e ↦ subst (Goes c) (sym e) (Goes-refl c v)
    | inr (e, fits) ↦ subst (Goes c) (sym e) (
        Goes-quiet
          (record {
            by_name = v.by_name;
            by_id = v.by_id;
            each = v.each;
            distinct = v.distinct;
            requests = append-AllPointInto c.heap c.op_ch op v.requests x;
            room = fits;
          })
          (λ p id n y. y) refl)
  ]

  -- The contact that is known can be sent to again.
  pub Keeps-push_retransmit :
      (p id : ℕ) (nickname : String) → Keeps {R = R} (stands p id nickname) (push_op (retransmit p))
  Keeps-push_retransmit p id nickname = record {
    at = λ c v h. push_op-Goes (retransmit p) c v (h.contact, h.at);
  }

  module _ {s : Fact} where
    pub Keeps-emit : (e : Event) → Keeps {R = R} s (emit e)
    unfolding emit
    Keeps-emit e = record {
      at = λ c v h. record { sound = v; extends = λ p id n x. x; events = (e ∷ [], refl) };
    }

    pub Keeps-fatal : (e : Fatal) → Keeps {R = R} s (fatal e)
    Keeps-fatal e = record {
      at = λ c v h. elim (fatal_state e c) [
        | inl (f, n) ↦ subst (Goes c) (sym n) (Goes-quiet v (λ p id n x. x) refl)
        | inr n ↦ subst (Goes c) (sym n) (Goes-refl c v)
      ];
    }

    -- A change of fields that the invariant does not read.
    pub Keeps-modify :
        (f : Client R → Client R)
        → ((c : Client R) → IsSound c → IsSound (f c))
        → ((c : Client R) → c.heap ≡ (f c).heap)
        → ((c : Client R) → c.event_ch ≡ (f c).event_ch)
        → Keeps s (modify f)
    unfolding modify
    Keeps-modify f sound same events = record {
      at =
          λ c v h. Goes-quiet (sound c v) (λ p id n x. subst (Stands p id n) (same c) x) (events c);
    }

    pub Keeps-put_message :
        (nickname : String) (id : Bytes) (m : Message) → Keeps {R = R} s (put_message nickname id m)
    unfolding put_message
    Keeps-put_message nickname id m = record { at = λ c v h. Goes-quiet v (λ p id n x. x) refl }

    pub Keeps-save : (env : Env R) (faults : Faults) → Keeps s (save env faults)
    Keeps-save env faults = record {
      at = λ c v h.
          let (_, d, e) = save-Saves env faults c in
          subst (Goes c) (sym e) (Goes-quiet v (λ p id n x. x) refl);
    }

pub ruleset actions_rules = (
  keeps_rules, Keeps-load, Keeps-load_again, Keeps-store, Keeps-emit, Keeps-fatal,
  Keeps-put_message, Keeps-save, Keeps-modify, Keeps-push_retransmit,
)
