-- ===== src/Client/System/Restart.antt =====
-- The program is shut down and started again.
use catshadow.Prelude.{◌≡◌, Bytes}
use catshadow.Disk.{Disk}
use catshadow.Client.{Env}
use catshadow.Contact.{Contact}
use catshadow.Client.Encoding.{unmarshal_state}
use catshadow.Client.Interface.{System}

module _ {R : Type 0} (env : Env R) where
  -- The statefile is read by the cbor library, and each contact in it by `UnmarshalBinary`.
  abbrev pub Decodes : Type 0
  Decodes = (b : Bytes) → env.crypto.unmarshal_state b ≡ unmarshal_state env.state_codec b
