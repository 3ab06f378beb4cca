-- ===== src/Client/Interface/Sink.antt =====
-- `eventSinkWorker` moves events from the channel to the application.
use catshadow.Prelude.{
  ◌≡◌, refl, sym, ap, ◌∙◌, true, subst, ◌⊎◌, inl, inr, Bool-cases, List, [], ◌∷◌, ◌++◌, append-nil,
  append_assoc, none, some, arith,
}
use catshadow.Client.{Event}
use catshadow.Client.Interface.{
  System, SinkState, receives, sends_on, returned, SinkCase, halt_ch, channel, event_sink_worker,
}
use catshadow.Client.Sound.Keeps.{Grows}

-- The event that the goroutine has, or had, in hand.
abbrev pub in_hand : SinkState → List Event
in_hand receives = []
in_hand (sends_on event) = event ∷ []
in_hand (returned none) = []
in_hand (returned (some event)) = event ∷ []

abbrev pub IsRunning : SinkState → Type 0
IsRunning k = (k ≡ receives) ⊎ ((event : Event) × (k ≡ sends_on event))

module _ {R : Type 0} where
  -- The events that were handed on, in front of the one in hand and those that wait.
  abbrev pub emitted : System R → List Event
  emitted s = s.delivered ++ (in_hand s.sink ++ s.client.event_ch)

  -- What a step of the goroutine makes of the state: it moves events, hands them on at the end, and
  -- does nothing once it has returned.
  pub record Moves (s s' : System R) : Type 0 where
    pub events : List Event
    pub handed : List Event
    pub sink : SinkState
    pub state : s' ≡ record s {
      client = record s.client { event_ch = events };
      delivered = handed;
      sink = sink;
    }
    pub same_events : handed ++ (in_hand sink ++ events) ≡ emitted s
    pub grows : Grows s.delivered handed
    pub ended : IsRunning s.sink ⊎ ((sink ≡ s.sink) × (handed ≡ s.delivered))

  stays-Moves :
      (s : System R) (k : SinkState)
      → in_hand k ≡ in_hand s.sink
      → IsRunning s.sink ⊎ (k ≡ s.sink)
      → Moves s (record s { sink = k })
  stays-Moves s k e r = record {
    events = s.client.event_ch;
    handed = s.delivered;
    sink = k;
    state = refl;
    same_events = ap (λ l. s.delivered ++ (l ++ s.client.event_ch)) e;
    grows = ([], sym (append-nil s.delivered));
    ended = elim r [ inl x ↦ inl x | inr x ↦ inr (x, refl) ];
  }

  unchanged-Moves :
      (x : SinkCase) (s : System R) → event_sink_worker x s ≡ s → Moves s (event_sink_worker x s)
  unchanged-Moves x s e = subst (Moves s) (sym e) (stays-Moves s s.sink refl (inr refl))

  halts-Moves :
      (s : System R) (k : SinkState)
      → s.sink ≡ k
      → s.halted ≡ true
      → Moves s (event_sink_worker halt_ch s)
  unfolding event_sink_worker
  halts-Moves s receives e h =
      let step : event_sink_worker halt_ch s ≡ record s { sink = returned none } =
        ground (arith, e, h) in
      subst (Moves s) (sym step) (stays-Moves s (returned none) (ap in_hand (sym e)) (inl (inl e)))
  halts-Moves s (sends_on event) e h =
      let step : event_sink_worker halt_ch s ≡ record s { sink = returned (some event) } =
        ground (arith, e, h) in
      subst (Moves s) (sym step)
        (stays-Moves s (returned (some event)) (ap in_hand (sym e)) (inl (inr (event, e))))
  halts-Moves s (returned o) e h =
      let step : event_sink_worker halt_ch s ≡ record s { sink = returned o } =
        ground (arith, e, h) in
      subst (Moves s) (sym step) (stays-Moves s (returned o) (ap in_hand (sym e)) (inr (sym e)))

  channel-Moves :
      (s : System R) (k : SinkState) (l : List Event)
      → s.sink ≡ k
      → s.client.event_ch ≡ l
      → Moves s (event_sink_worker channel s)
  unfolding event_sink_worker
  channel-Moves s receives [] e f = unchanged-Moves channel s (ground (arith, e, f))
  channel-Moves s receives (event ∷ events) e f =
      let at : emitted s ≡ s.delivered ++ s.client.event_ch =
        ap (λ k. s.delivered ++ (in_hand k ++ s.client.event_ch)) e in
      record {
        events = events;
        handed = s.delivered;
        sink = sends_on event;
        state = ground (arith, e, f);
        same_events = sym (at ∙ ap (λ (l : List Event). s.delivered ++ l) f);
        grows = ([], sym (append-nil s.delivered));
        ended = inl (inl e);
      }
  channel-Moves s (sends_on event) l e f = record {
    events = s.client.event_ch;
    handed = s.delivered ++ event ∷ [];
    sink = receives;
    state = ground (arith, e);
    same_events =
        append_assoc s.delivered (event ∷ []) s.client.event_ch
        ∙ sym (ap (λ k. s.delivered ++ (in_hand k ++ s.client.event_ch)) e);
    grows = (event ∷ [], refl);
    ended = inl (inr (event, e));
  }
  channel-Moves s (returned o) l e f = unchanged-Moves channel s (ground (arith, e))

  pub event_sink_worker-Moves : (x : SinkCase) (s : System R) → Moves s (event_sink_worker x s)
  event_sink_worker-Moves halt_ch s = elim (Bool-cases s.halted) [
    | inl h ↦ halts-Moves s s.sink refl h
    | inr h ↦ unchanged-Moves halt_ch s (unfold event_sink_worker in ground (arith, h))
  ]
  event_sink_worker-Moves channel s = channel-Moves s s.sink s.client.event_ch refl refl
