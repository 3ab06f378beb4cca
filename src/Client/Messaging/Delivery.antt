-- ===== src/Client/Messaging/Delivery.antt =====
-- `handleSent`: what the client does when the session reports that a message was sent, or was not.
use catshadow.Prelude.{ℕ, ◌≡◌, ◌≢◌, some, lookup, nat_comparable, string_comparable}
use catshadow.Fifo.{Fifo}
use catshadow.Contact.{Contact}
use catshadow.Client.{Client, Env, by_value, send_key_comparable, SentMessageDescriptor}
use catshadow.Client.Messaging.{SentEvent}

module _ {R : Type 0} (env : Env R) where
  -- The report is about a message that went to a contact.
  pub record Reports (event : SentEvent) (tp : SentMessageDescriptor) (p : ℕ) (k : Contact R)
      (c : Client R) : Type 0 where
    pub entry : lookup (by_value event.message_id.value) c.send_map ≡ some tp
    pub not_own : tp.nickname ≢ env.user
    pub named : lookup tp.nickname c.contact_nicknames ≡ some p
    pub at : lookup p c.heap ≡ some k
