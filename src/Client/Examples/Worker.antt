-- ===== src/Client/Examples/Worker.antt =====
-- The worker of the toy client starts, loses its connection, and finds it again.
use catshadow.Prelude.{◌*◌, ◌^◌, ◌≡◌, refl, true, false, [], some}
use catshadow.Queue.{new_queue}
use catshadow.Client.{◌>>=◌, emit}
use catshadow.Client.Worker.{
  Loop, Document, turn, start_worker, reconnect, get_read_inbox_interval, connection_status_event,
}
use catshadow.Client.Worker.Timing.{IsTimed, Reaches, starts, turns, worker-IsTimed}
use catshadow.Client.Examples.{env, client}

abbrev doc : Document
doc = record { lambda_p_max_delay = 5 }

abbrev started : Loop
started = record { is_connected = true; doc = doc; read_inbox_timer = some (7 * 10 ^ 6) }

abbrev dropped : Loop
dropped = reconnect 3 false started

abbrev back : Loop
back = reconnect 3000 true dropped

Reaches-started : Reaches env started
unfolding ◌>>=◌ start_worker get_read_inbox_interval
Reaches-started = starts 7 doc (client new_queue []) refl

Reaches-back : Reaches env back
unfolding ◌>>=◌ turn emit
Reaches-back =
    turns (connection_status_event 3000 true) (client new_queue [])
      (turns (connection_status_event 3 false) (client new_queue []) Reaches-started refl) refl

-- A draw that is too long is cut to 42 times the document's delay.
back_is_cut : back.read_inbox_timer ≡ some (210 * 10 ^ 6)
unfolding reconnect get_read_inbox_interval
back_is_cut = refl

worker-IsTimed_example : IsTimed back
worker-IsTimed_example = worker-IsTimed env back Reaches-back
