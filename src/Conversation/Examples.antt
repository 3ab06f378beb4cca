-- ===== src/Conversation/Examples.antt =====
-- A conversation of an old message and a new one.
use catshadow.Prelude.{
  arith, true, false, ℕ, ◌+◌, ◌≡◌, refl, Bytes, String, [], ◌∷◌, string_comparable,
  bytes_comparable, lookup,
}
use catshadow.Conversation.{
  Message, Conversations, message_at, message_expiration_duration, garbage_collect_conversations,
}
use catshadow.Conversation.Expiry.{
  IsKeyed, unless_expired, message_at-garbage_collect, garbage_collect_twice,
}

abbrev old : Message
old = record { plaintext = 1 ∷ []; timestamp = 5; outbound = true }

abbrev new : Message
new = record { plaintext = 2 ∷ []; timestamp = 9; outbound = false }

abbrev said : Conversations
said = ("bob", (1 ∷ [], old) ∷ (2 ∷ [], new) ∷ []) ∷ []

abbrev later : String → Bytes → ℕ
later n id = 8 + message_expiration_duration

said-IsKeyed : IsKeyed said
unfolding lookup
said-IsKeyed = ((refl, (refl, tt)), tt)

message_at-garbage_collect_example :
    message_at "bob" (1 ∷ []) (garbage_collect_conversations later said)
    ≡ unless_expired (later "bob" (1 ∷ [])) (message_at "bob" (1 ∷ []) said)
message_at-garbage_collect_example =
    message_at-garbage_collect later "bob" (1 ∷ []) said said-IsKeyed

garbage_collect_twice_example :
    garbage_collect_conversations later (garbage_collect_conversations (λ n id. 5) said)
    ≡ garbage_collect_conversations later said
garbage_collect_twice_example = garbage_collect_twice (λ n id. 5) later said (λ n id. omega arith)
