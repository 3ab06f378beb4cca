-- ===== src/Lib.antt =====
-- catshadow: the client of an asynchronous messenger over a mix network.
--
-- A user's contacts each have a double ratchet, a queue of messages that go out, and a key
-- exchange, PANDA or Reunion, that pairs them. A message is framed, encrypted, made a command that
-- appends it to the contact's remote spool, and queued; the command at the front of the queue is
-- handed to the mixnet session, and leaves the queue when the spool acknowledges it. The client
-- reads its own spool in the same way, and tries every contact's ratchet on what it finds there.
-- One goroutine, the worker, does all this in turn; the state is saved to an encrypted file after a
-- change.
--
-- Which file models what (paths of the repository, from its root):
--   Queue         queue.go: the ring buffer of 20 commands and its binary form (Queue/Codec).
--                 Queue/Invariant has the invariant of its indices, Queue/Refine what it holds.
--   Fifo          what the queue promises: a list with room for a number of commands.
--   Payload       client.go, doSendMessage and decryptMessage: the frame of a message in the ratchet's
--                 payload. Payload/Framing has the theorems.
--   Disk          disk.go: encryption and replacement of the statefile. Disk/Crash is about stopping
--                 at any point, Disk/RoundTrip about loading, Disk/Worker has the writer's goroutine
--                 and the single calls of a write, Disk/Saves is about all its writes, and
--                 Disk/Race lets two writes interleave. Disk/Renaming has the names.
--   Conversation  client.go, disk.go, constants.go: messages by nickname and ID, and their expiry.
--   Contact       contact.go: the contact's record and NewContact; Contact/Codec its binary form.
--   Client        client.go, events.go, message.go, operations.go: the state (Client/Data), how it
--                 is encoded (Client/Encoding, marshal), and what a method is. Its parts are
--                 Client/Registry (createContact, doPANDAExchange, doReunion, doContactRemoval),
--                 Client/Messaging (doSendMessage, sendMessage, handleSent), Client/Inbox
--                 (sendReadInbox, handleReply, decryptMessage), Client/Exchanges
--                 (processPANDAUpdate, processReunionUpdate), Client/Startup (New), Client/Launch
--                 (Start), Client/RemoteSpool (NewClientAndRemoteSpool, CreateRemoteSpool),
--                 Client/Worker (worker.go) and Client/Interface (the public methods,
--                 eventSinkWorker, Shutdown). Client/Steps has rules for methods, Client/InFlight
--                 joins removal with sending, and Client/EndToEnd sending with receiving.
--   Client/Sound  what is true of the client's state whatever the worker does: Client/Sound/Keeps has a
--                 rule for each way to build a method, and the other files go through the methods.
--   Client/System the goroutines together, as a step relation on the client, the worker's loop, the
--                 senders that wait for room in opCh, eventSinkWorker, the events that were
--                 handed on, and whether HaltCh is closed.
--   Config        config/config.go: loading the configuration and setting the log up.
--   Prelude       Boolean tests, lists, equality tests and maps over the native numbers.
--   The modules named Examples run the definitions on inputs that are written out.
--
-- A method is a function from the client's state to an outcome and the state that it leaves. The
-- outcome is a value, a panic with its reason, or `blocked` where the goroutine waits for ever on a
-- channel. Contacts stand on a heap, since two maps and queued operations share pointers to them. A
-- Go map is an association list, and a `range` over it takes the list's order, which theorems leave
-- arbitrary. What the clock, the random source, the disk and the session yield during one call is
-- an argument of it; what other repositories compute (ratchet, spool protocol, cbor, secretbox,
-- argon2, panda, reunion) is a field of the records `Env`, `Crypto`, `Cbor`, `Codec` and
-- `StateCodec`; a law of it that is used stands in the record or among a theorem's hypotheses. A
-- slice keeps its spare capacity where the code slices beyond its length.
--
-- Integers that wrap are taken modulo their size: the 32-bit header of a frame, the sum in its
-- slicing, and the 64 bits of the timers' durations. Loops recur over the list that they range
-- over; the loop of randID recurs over what the random source yields, and waits for ever if that
-- ends. No definition has fuel.
--
-- Not modelled: logging, and the mutexes. A method of the worker, and a call of the public
-- interface up to where it waits for the channel, is one step, and so is one `select` of
-- eventSinkWorker; the calls of two saves interleave in Disk/Race only. The goroutines that wait
-- for the end of the session or for a fatal error do nothing but call Shutdown, which may come at
-- any time. The tests, which need a running mix network, are left out.
pub mod Prelude
pub mod Payload
pub mod Disk
pub mod Fifo
pub mod Queue
pub mod Contact
pub mod Conversation
pub mod Client
pub mod Config
