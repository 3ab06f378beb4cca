-- ===== src/Conversation.antt =====
-- The conversations of client.go and disk.go: what was said with whom, by message ID.
pub mod Expiry
mod Examples
use catshadow.Prelude.{
  ℕ, ◌+◌, ◌*◌, ◌^◌, Bool, Bytes, String, List, [], ◌∷◌, Map, Option, none, some, ltb, lookup,
  insert, map, if◌then◌else◌, string_comparable, bytes_comparable,
}

-- `Message` of disk.go, with its time in nanoseconds.
pub record Message : Type 0 where
  pub plaintext : Bytes
  pub timestamp : ℕ
  pub outbound : Bool

abbrev pub Messages : Type 0
Messages = Map Bytes Message

abbrev pub Conversations : Type 0
Conversations = Map String Messages

-- `MessageExpirationDuration`, 168 hours in nanoseconds.
abbrev pub message_expiration_duration : ℕ
message_expiration_duration = 168 * 3600 * 10 ^ 9

-- `conversations[nickname][id] = &message`, after the inner map is made if there is none.
unfoldable pub put : String → Bytes → Message → Conversations → Conversations
put nickname id message cs = elim (lookup nickname cs) [
  | none ↦ insert nickname ((id, message) ∷ []) cs
  | some ms ↦ insert nickname (insert id message ms) cs
]

-- `conversations[nickname][id]`
unfoldable pub message_at : String → Bytes → Conversations → Option Message
message_at nickname id cs = elim (lookup nickname cs) [ none ↦ none | some ms ↦ lookup id ms ]

abbrev pub has_expired : ℕ → Message → Bool
has_expired now m = ltb (m.timestamp + message_expiration_duration) now

-- `garbageCollectConversations`: the clock is read anew for every message, so `now` is a reading for
-- each name and ID.
unfoldable pub collect_messages : (Bytes → ℕ) → Messages → Messages
collect_messages now [] = []
collect_messages now ((id, m) ∷ ms) =
    let rest = collect_messages now ms in if has_expired (now id) m then rest else (id, m) ∷ rest

unfoldable pub garbage_collect_conversations : (String → Bytes → ℕ) → Conversations → Conversations
garbage_collect_conversations now [] = []
garbage_collect_conversations now ((n, ms) ∷ cs) =
    (n, collect_messages (now n) ms) ∷ garbage_collect_conversations now cs
