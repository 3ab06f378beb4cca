-- ===== src/Client/System/Events.antt =====
-- What becomes of the events: in which order they are handed on, and which are lost on a halt.
use catshadow.Prelude.{◌≡◌, ◌⊎◌}
use catshadow.Client.{Client, Env}
use catshadow.Client.Interface.{System}
use catshadow.Client.Interface.Sink.{emitted, IsRunning}
use catshadow.Client.Sound.Keeps.{Grows}
use catshadow.Client.System.{Step}

module _ {R : Type 0} where
  -- How the events of a state that comes later stand to those of an earlier one: the events that were
  -- emitted, and those that were handed on, grow at the end only, and no more is handed on, nor is
  -- another event taken, once the goroutine has returned.
  pub record Follows (s s' : System R) : Type 0 where
    pub emits : Grows (emitted s) (emitted s')
    pub hands : Grows s.delivered s'.delivered
    pub ended : IsRunning s.sink ⊎ ((s'.sink ≡ s.sink) × (s'.delivered ≡ s.delivered))

module _ {R : Type 0} (env : Env R) where
  -- What the program comes to from one state.
  pub data Leads (s : System R) : System R → Type 0 where
    stays : Leads s s
    goes_on : (s' s'' : System R) → Leads s s' → Step env s' s'' → Leads s s''
