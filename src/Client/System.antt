-- ===== src/Client/System.antt =====
-- The program as a whole: the worker, the application's calls, the timers that have fired, the
-- goroutine of the events and a shutdown, whose steps come in any order.
pub mod Safety
pub mod Events
pub mod Restart
use catshadow.Prelude.{
  ℕ, ◌≡◌, Bytes, String, List, [], ◌∷◌, ◌++◌, Option, some, false, lookup, nat_comparable,
}
use catshadow.Disk.{Disk, Faults}
use catshadow.Contact.{Contact}
use catshadow.Client.{Client, Env, Op, retransmit, State, done}
use catshadow.Client.Worker.{Loop, Document, Turn, turn, start_worker}
use catshadow.Client.Startup.{new_client}
use catshadow.Client.Launch.{Launch, requests, resume}
use catshadow.Client.Interface.{
  System, SinkCase, receives, sends, enters, new_contact, remove_contact, get_contacts,
  send_message, event_sink_worker, shutdown,
}

module _ {R : Type 0} (env : Env R) where
  -- One step. A turn in which the worker panics ends the program and has no step; neither has one in
  -- which the worker waits for ever. Any contact's timer may have fired: one that is stopped or set
  -- again may have fired before.
  pub data Step (s : System R) : System R → Type 0 where
    turns :
        (l : Loop) (t : Turn R) (next : Option Loop) (c : Client R)
        → s.loop ≡ some l
        → turn env l t s.client ≡ (done next, c)
        → Step s (record s { client = c; loop = next })
    adds :
        (nickname : String) (shared_secret : Bytes) → Step s (new_contact nickname shared_secret s)
    removes : (nickname : String) → Step s (remove_contact nickname s)
    asks : Step s (get_contacts s)
    sends_message :
        (random : Option Bytes) (nickname : String) (message : Bytes)
        → Step s (send_message random nickname message s).1
    fires :
        (p : ℕ) (k : Contact R) → lookup p s.client.heap ≡ some k → Step s (sends (retransmit p) s)
    comes_in :
        (before : List Op) (op : Op) (after : List Op)
        → s.waiting ≡ before ++ op ∷ after
        → Step s (enters before op after s)
    hands_on : (x : SinkCase) → Step s (event_sink_worker x s)
    shuts_down : (faults : Faults) → Step s (shutdown env faults s).1

  -- What the program can come to, from a state that was loaded: `New`, `Start`, which starts the
  -- worker and then prods it, and any number of steps.
  pub data Reachable (state : State R) : System R → Type 0 where
    starts :
        (disk : Disk) (launch : Launch) (ps : List ℕ) (c c' : Client R) (draw : ℕ)
        (doc : Option Document) (next : Option Loop)
        → resume env launch (new_client env state disk) ≡ (done ps, c)
        → start_worker env draw doc c ≡ (done next, c')
        → Reachable state (record {
          client = c';
          loop = next;
          waiting = requests ps;
          sink = receives;
          delivered = [];
          halted = false;
        })
    steps : (s s' : System R) → Reachable state s → Step s s' → Reachable state s'
