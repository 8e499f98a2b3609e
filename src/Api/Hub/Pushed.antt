-- ===== src/Api/Hub/Pushed.antt =====
-- What the hub writes to its websockets.
use carbmq_core.Base.{
  List, [], ◌∷◌, ◌++◌, Option, none, some, map, ◌≡◌, refl, sym, ◌∙◌, Option-cases, inl, inr,
}
use mathlib.Core.List.{append_assoc, append-nil}
use carbmq_core.Errors.{Error}
use carbmq_core.Api.Hub.{TelemetryEvent, Socket, Hub, push, push_all, broadcast}

-- The sockets, in order, on which a write works, and those on which it fails.
unfoldable reached : (Socket → Option Error) → List Socket → List Socket
reached fault [] = []
reached fault (c ∷ cs) =
    let rest = reached fault cs in elim (fault c) [ none ↦ c ∷ rest | some _ ↦ rest ]

unfoldable pub failing : (Socket → Option Error) → List Socket → List Socket
failing fault [] = []
failing fault (c ∷ cs) =
    let rest = failing fault cs in elim (fault c) [ none ↦ rest | some _ ↦ c ∷ rest ]

-- an event for each of these sockets
abbrev to_each : TelemetryEvent → List Socket → List (Socket × TelemetryEvent)
to_each event = map (λ c. (c, event))

push_all_lem :
    (fault : Socket → Option Error) (cs : List Socket) (event : TelemetryEvent) (h : Hub)
    → let h' = push_all fault cs event h in
      (h'.clients ≡ h.clients)
      × (h'.pushed ≡ h.pushed ++ to_each event (reached fault cs))
      × (h'.closed ≡ h.closed ++ failing fault cs)
unfolding push_all reached failing push
push_all_lem fault [] event h = (refl, sym (append-nil h.pushed), sym (append-nil h.closed))
push_all_lem fault (c ∷ cs) event h = elim (Option-cases (fault c)) [
  | inl works ↦
      let h' : Hub = record h { pushed = h.pushed ++ (c, event) ∷ [] } in
      let (same, pushed, closed) = push_all_lem fault cs event h' in
      rw (push_all, reached, failing, works) (same, pushed ∙ append_assoc h.pushed _ _, closed)
  | inr (e, fails) ↦
      let h' : Hub = record h { closed = h.closed ++ c ∷ [] } in
      let (same, pushed, closed) = push_all_lem fault cs event h' in
      rw (push_all, reached, failing, fails) (same, pushed, closed ∙ append_assoc h.closed _ _)
]

-- `Broadcast` writes the event once to every websocket whose write works, in the order of the
-- range, closes exactly the others, and leaves the set of clients as it is.
broadcast_lem :
    (fault : Socket → Option Error) (event : TelemetryEvent) (h : Hub)
    → let h' = broadcast fault event h in
      (h'.clients ≡ h.clients)
      × (h'.pushed ≡ h.pushed ++ to_each event (reached fault h.clients))
      × (h'.closed ≡ h.closed ++ failing fault h.clients)
unfolding broadcast
broadcast_lem fault event h = push_all_lem fault h.clients event h
