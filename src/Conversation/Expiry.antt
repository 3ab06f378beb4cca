-- ===== src/Conversation/Expiry.antt =====
-- What the garbage collector of conversations keeps.
use catshadow.Prelude.{
  ℕ, ◌≡◌, ◌≤◌, refl, ap₂, Bytes, String, [], ◌∷◌, Option, none, some, lookup, insert, arith,
  string_comparable, bytes_comparable, if◌then◌else◌, Distinct, insert-Distinct, ==_iff,
  lookup-insert, Option-cases, inl, inr, ap, ◌==◌, Bool-cases, subst, ◌&&◌,
}
use catshadow.Conversation.{
  Message, Messages, Conversations, put, message_at, has_expired, collect_messages,
  garbage_collect_conversations,
}

-- A message unless it has expired.
abbrev pub unless_expired : ℕ → Option Message → Option Message
unless_expired now none = none
unless_expired now (some m) = if has_expired now m then none else some m

-- No message ID is listed twice in a conversation.
abbrev pub IsKeyed : Conversations → Type 0
IsKeyed [] = Unit
IsKeyed ((n, ms) ∷ cs) = Distinct ms × IsKeyed cs

lookup-collect_messages :
    (now : Bytes → ℕ) (id : Bytes) (ms : Messages)
    → Distinct ms
    → lookup id (collect_messages now ms) ≡ unless_expired (now id) (lookup id ms)
unfolding collect_messages lookup
lookup-collect_messages now id [] d = refl
lookup-collect_messages now id ((j, m) ∷ ms) d = elim (Bool-cases (j == id)) [
  | inl e ↦
      let same = (==_iff j id).0 e in
      ground (arith, e, ap now same, rw same at d.0, lookup-collect_messages now id ms d.1)
  | inr e ↦ ground (arith, e, lookup-collect_messages now id ms d.1)
]

collect_messages-Distinct :
    (now : Bytes → ℕ) (ms : Messages) → Distinct ms → Distinct (collect_messages now ms)
unfolding collect_messages
collect_messages-Distinct now [] d = tt
collect_messages-Distinct now ((j, m) ∷ ms) d =
    ground (arith, lookup-collect_messages now j ms d.1, d.0, collect_messages-Distinct now ms d.1)

-- The collector removes exactly the messages that have expired when it looks at them: whatever is
-- asked for afterwards, under any name and message ID, is what was there before unless it had
-- expired.
pub message_at-garbage_collect :
    (now : String → Bytes → ℕ) (n : String) (id : Bytes) (cs : Conversations)
    → IsKeyed cs
    → message_at n id (garbage_collect_conversations now cs)
      ≡ unless_expired (now n id) (message_at n id cs)
unfolding message_at garbage_collect_conversations lookup
message_at-garbage_collect now n id [] k = refl
message_at-garbage_collect now n id ((j, ms) ∷ cs) k = elim (Bool-cases (j == n)) [
  | inl e ↦ ground (
    arith,
    e,
    ap (λ (s : String). now s id) ((==_iff j n).0 e),
    lookup-collect_messages (now j) id ms k.0,
  )
  | inr e ↦ ground (arith, e, message_at-garbage_collect now n id cs k.1)
]

-- A garbage collection lists no message ID twice if none was before.
pub garbage_collect-IsKeyed :
    (now : String → Bytes → ℕ) (cs : Conversations)
    → IsKeyed cs
    → IsKeyed (garbage_collect_conversations now cs)
unfolding garbage_collect_conversations
garbage_collect-IsKeyed now [] k = tt
garbage_collect-IsKeyed now ((n, ms) ∷ cs) k =
    (collect_messages-Distinct (now n) ms k.0, garbage_collect-IsKeyed now cs k.1)

lookup-IsKeyed :
    (n : String) (ms : Messages) (cs : Conversations)
    → IsKeyed cs
    → lookup n cs ≡ some ms
    → Distinct ms
unfolding lookup
lookup-IsKeyed n ms [] k e = cc
lookup-IsKeyed n ms ((j, ns) ∷ cs) k e = elim (Bool-cases (j == n)) [
  | inl b ↦ subst Distinct (ground (arith, b)) k.0
  | inr b ↦ lookup-IsKeyed n ms cs k.1 (ground (arith, b))
]

insert-IsKeyed :
    (n : String) (ms : Messages) (cs : Conversations)
    → Distinct ms
    → IsKeyed cs
    → IsKeyed (insert n ms cs)
unfolding insert
insert-IsKeyed n ms [] d k = (d, tt)
insert-IsKeyed n ms ((j, ns) ∷ cs) d k = elim (Bool-cases (j == n)) [
  | inl b ↦ rw b (d, k.1)
  | inr b ↦ rw b (k.0, insert-IsKeyed n ms cs d k.1)
]

lookup-nil : (id : Bytes) → lookup {V = Message} id [] ≡ none
unfolding lookup
lookup-nil id = refl

lookup-one :
    (id id' : Bytes) (m : Message)
    → lookup id' ((id, m) ∷ []) ≡ (if id == id' then some m else none)
unfolding lookup
lookup-one id id' m = refl

pub put-IsKeyed :
    (n : String) (id : Bytes) (m : Message) (cs : Conversations)
    → IsKeyed cs
    → IsKeyed (put n id m cs)
unfolding put
put-IsKeyed n id m cs k = elim (Option-cases (lookup n cs)) [
  | inl e ↦ rw (e, put) (insert-IsKeyed n ((id, m) ∷ []) cs (lookup-nil id, tt) k)
  | inr (ms, e) ↦
      rw (e, put)
        (insert-IsKeyed n (insert id m ms) cs (insert-Distinct id m ms (lookup-IsKeyed n ms cs k e))
          k)
]

-- A message that is put into a conversation is found under its ID, and every other message of every
-- conversation is found as before.
pub message_at-put :
    (n n' : String) (id id' : Bytes) (m : Message) (cs : Conversations)
    → message_at n' id' (put n id m cs)
      ≡ (if n == n' && id == id' then some m else message_at n' id' cs)
unfolding message_at put
message_at-put n n' id id' m cs = elim (Option-cases (lookup n cs)) [
  | inl e ↦
      let ins = lookup-insert n n' ((id, m) ∷ []) cs in
      elim (Bool-cases (n == n')) [
        | inl b ↦ ground (arith, e, b, ins, rw ((==_iff n n').0 b) at e, lookup-one id id' m)
        | inr b ↦ ground (arith, e, b, ins)
      ]
  | inr (ms, e) ↦
      let ins = lookup-insert n n' (insert id m ms) cs in
      elim (Bool-cases (n == n')) [
        | inl b ↦ ground (arith, e, b, ins, rw ((==_iff n n').0 b) at e, lookup-insert id id' m ms)
        | inr b ↦ ground (arith, e, b, ins)
      ]
]

collect_messages_twice :
    (now later : Bytes → ℕ) (ms : Messages)
    → ((id : Bytes) → now id ≤ later id)
    → collect_messages later (collect_messages now ms) ≡ collect_messages later ms
unfolding collect_messages
collect_messages_twice now later [] h = refl
collect_messages_twice now later ((id, m) ∷ ms) h =
    ground (arith, h id, collect_messages_twice now later ms h)

-- Collecting expired messages now and again later leaves what collecting them later alone leaves:
-- nothing depends on how often the timer fires.
pub garbage_collect_twice :
    (now later : String → Bytes → ℕ) (cs : Conversations)
    → ((n : String) (id : Bytes) → now n id ≤ later n id)
    → garbage_collect_conversations later (garbage_collect_conversations now cs)
      ≡ garbage_collect_conversations later cs
unfolding garbage_collect_conversations
garbage_collect_twice now later [] h = refl
garbage_collect_twice now later ((n, ms) ∷ cs) h =
    ap₂ (λ (x : Messages) (r : Conversations). (n, x) ∷ r)
      (collect_messages_twice (now n) (later n) ms (h n)) (garbage_collect_twice now later cs h)
