-- ===== src/Remote/Transport/Handlers.antt =====
-- src/remote/signed-wss-transport.ts: every handler is a sequence of moves.
use abmind.Prelude.{
  ℕ, ◌+◌, ◌≡◌, refl, String, true, false, ◌&&◌, ◌||◌, not, Option, none, some, List, [], ◌∷◌, arith,
  ltb, if◌then◌else◌, length, inl, inr, Bool-cases, Option-cases,
}
use abmind.Prelude.Table.{select}
use abmind.Remote.Outbox.{
  Outbox, Entry, timeout, send_failed, socket_lost, is_in_flight, append, get, mark_in_flight,
  mark_retry_wait, acknowledge, is_exhausted, peek_due,
}
use abmind.Remote.Outbox.Delivery.{marks_in_flight, marks_retry_wait, acknowledges}
use abmind.Remote.Outbox.Credit.{Writes, acknowledge-Writes}
use abmind.Remote.Route.{Published, on_ready, on_route_lost}
use abmind.Remote.Route.Bound.{Event as RouteEvent}
use abmind.Remote.Transport.{
  Options, appending, sending, failing, acknowledging, Moment, Pending, Sent, PumpTimer,
  looks_again, sends_due, transport_closed, unusable, not_ready, not_persisted, answered, Transport,
  waits_for, is_frame, reply_to, retry_delay, route_ready, schedule_pump, with_outbox, transmit,
  send_found, send_entry, admit, request, attempt_expires, send_due, pump_fires, lose_frame,
  lose_sent, lose_frames, handle_route_lost, hear, route_changes,
}
use abmind.Remote.Transport.Messages.{
  Response, Incoming, answers, settle_caller, settle_replay, settle_response, sent_on,
  handle_message, message_arrives,
}
use abmind.Remote.Transport.Runs.{
  Event, asks, attempt_timeout, pump_timeout, on_route, receives, closes, step,
}
use abmind.Remote.Transport.Moves.{
  IsNew, calls, declines, gates, releases, sends, refuses, admits, answers_one, loses_one, Moves,
  done, and_then, Moves-trans, Moves-if, idle, one_call, close-Moves, mark_degraded-Moves,
  schedule_pump-Moves, settle-Moves, record_failure-Moves,
}

module _ {P : Type 0} (o : Options) (m : Moment) where
  transmit-Moves :
      (i : String) (e : Entry) (t : Transport)
      → get i t.outbox ≡ some e
      → is_exhausted e m.now ≡ false
      → (mark_in_flight (m.disk sending) m.now i t.outbox).1 ≡ true
      → Moves P t (transmit o m i (mark_in_flight (m.disk sending) m.now i t.outbox).0 t)
  unfolding transmit
  transmit-Moves i e t held live marked =
      Moves-if (route_ready m t && m.takes)
        (λ h. and_then (sends (m.disk sending) m.now i t.route.generation e held live marked) done)
        (λ h. and_then (calls (m.disk sending) (marks_in_flight m.now i) refl) (
          and_then
            (gates (record { frame_id = i; generation = t.route.generation } ∷ []) (omega arith))
            (record_failure-Moves o m i send_failed _)))

  send_found-Moves :
      (i : String) (e : Entry) (t : Transport)
      → get i t.outbox ≡ some e
      → Moves P t (send_found o m i e t)
  unfolding send_found
  send_found-Moves i e t held =
      let marked = mark_in_flight (m.disk sending) m.now i t.outbox in
      Moves-if (not (route_ready m t)) (λ h. done)
        (λ h.
          Moves-if (ltb 0 (length t.sent_on_gen)) (λ h. done)
            (λ h.
              Moves-if (is_exhausted e m.now) (λ h. settle-Moves o m i timeout t)
                (λ live.
                  Moves-if marked.1 (λ h. transmit-Moves i e t held live h)
                    (λ h. Moves-trans (one_call (m.disk sending) (marks_in_flight m.now i) refl) (
                      Moves-if marked.0.degraded
                        (λ h. mark_degraded-Moves o (with_outbox marked.0 t)) (λ h. done))))))

  pub send_entry-Moves : (i : String) (t : Transport) → Moves P t (send_entry o m i t)
  unfolding send_entry
  send_entry-Moves i t = elim (Option-cases (get i t.outbox)) [
    | inl h ↦ rw (h, send_entry) done
    | inr (e, h) ↦ rw (h, send_entry) (send_found-Moves i e t h)
  ]

  pub request-Moves : (e : Entry) (t : Transport) → (P → IsNew e.id t) → Moves P t (request o m e t)
  unfolding request
  request-Moves e t fresh =
      let appended = append (m.disk appending) e t.outbox in
      Moves-if t.is_closed (λ h. and_then (refuses e transport_closed) done)
        (λ h.
          Moves-if (t.degraded || t.outbox.quarantined || t.outbox.degraded)
            (λ h. and_then (refuses e unusable) done)
            (λ h.
              Moves-if (not (route_ready m t)) (λ h. and_then (refuses e not_ready) done)
                (λ h.
                  Moves-if appended.1
                    (λ ok.
                      and_then (admits (m.disk appending) e ok fresh)
                        (send_entry-Moves e.id (admit e appended.0 t)))
                    (λ no.
                      and_then (declines (m.disk appending) e no)
                        (and_then (refuses e not_persisted) done)))))

  pub attempt_expires-Moves : (i : String) (t : Transport) → Moves P t (attempt_expires o m i t)
  unfolding attempt_expires
  attempt_expires-Moves i t = elim (Option-cases (get i t.outbox)) [
    | inl h ↦ rw (h, attempt_expires) done
    | inr (e, h) ↦
        rw (h, attempt_expires)
          (Moves-if (is_in_flight e.state) (λ h. record_failure-Moves o m i timeout t) (λ h. done))
  ]

  send_due-Moves : (due : Option Entry) (t : Transport) → Moves P t (send_due o m due t)
  send_due-Moves none t = done
  send_due-Moves (some e) t = send_entry-Moves e.id t

  pub pump_fires-Moves : (t : Transport) → Moves P t (pump_fires o m t)
  unfolding pump_fires
  pump_fires-Moves t = fired t.pump_timer
    where
      fired :
          (timer : Option PumpTimer)
          → Moves P t (elim timer [
            | none ↦ t
            | some (looks_again delay) ↦ schedule_pump o m (record t { pump_timer = none })
            | some sends_due ↦
                if t.is_closed || t.degraded || not (route_ready m t)
                then record t { pump_timer = none }
                else send_due o m (peek_due m.now t.outbox) (record t { pump_timer = none })
          ])
      fired none = done
      fired (some (looks_again delay)) = Moves-trans idle (schedule_pump-Moves o m _)
      fired (some sends_due) =
          Moves-if (t.is_closed || t.degraded || not (route_ready m t)) (λ h. idle)
            (λ h. Moves-trans idle (send_due-Moves (peek_due m.now t.outbox) _))

  lose_frame-Moves : (i : String) (e : Entry) (t : Transport) → Moves P t (lose_frame o m i e t).0
  unfolding lose_frame
  lose_frame-Moves i e t =
      let next = m.now + retry_delay o (e.attempts + 1) m.jitter in
      let (b, saved) = mark_retry_wait (m.disk failing) m.now i socket_lost next t.outbox in
      elim (Bool-cases (not (is_in_flight e.state))) [
        | inl h ↦ rw h done
        | inr h ↦ elim (Bool-cases (is_exhausted e m.now)) [
          | inl k ↦ rw (h, k) (settle-Moves o m i socket_lost t)
          | inr k ↦ elim (Bool-cases (not saved && b.degraded)) [
            | inl x ↦
                rw (h, k, x)
                  (Moves-trans
                    (one_call (m.disk failing) (marks_retry_wait m.now i socket_lost next) refl)
                    (mark_degraded-Moves o (with_outbox b t)))
            | inr x ↦
                rw (h, k, x)
                  (one_call (m.disk failing) (marks_retry_wait m.now i socket_lost next) refl)
          ]
        ]
      ]

  lose_sent-Moves : (s : Sent) (t : Transport) → Moves P t (lose_sent o m s t).0
  lose_sent-Moves s t = elim (Option-cases (get s.frame_id t.outbox)) [
    | inl h ↦ rw (h, lose_sent) done
    | inr (e, h) ↦ rw (h, lose_sent) (lose_frame-Moves s.frame_id e t)
  ]

  lose_frames-Moves : (ss : List Sent) (t : Transport) → Moves P t (lose_frames o m ss t)
  unfolding lose_frames
  lose_frames-Moves [] t = and_then (gates [] (omega arith)) done
  lose_frames-Moves (s ∷ ss) t =
      Moves-trans (lose_sent-Moves s t)
        (Moves-if (lose_sent o m s t).1 (λ h. lose_frames-Moves ss _) (λ h. done))

  hear-Moves :
      (attempts : ℕ) (p : Option Published) (t : Transport) → Moves P t (hear o m attempts p t)
  unfolding handle_route_lost
  hear-Moves attempts none t = done
  hear-Moves attempts (some (on_ready g)) t = schedule_pump-Moves o m t
  hear-Moves attempts (some (on_route_lost g)) t =
      Moves-trans (lose_frames-Moves t.sent_on_gen t)
        (Moves-if (handle_route_lost o m t).degraded (λ h. idle) (λ h. done))

  pub route_changes-Moves : (e : RouteEvent) (t : Transport) → Moves P t (route_changes o m e t)
  unfolding route_changes
  route_changes-Moves e t = Moves-trans idle (hear-Moves _ _ _)

-- A response.
module _ {P : Type 0} (o : Options) (m : Moment) (f : Incoming)
    (writes : P → Writes (m.disk acknowledging)) where
  loses_none : (b : Outbox) → (acknowledge (m.disk acknowledging) f.id b).1 ≡ false → P → ⊥
  loses_none b failed p =
      absurd (ground (arith, acknowledge-Writes (m.disk acknowledging) f.id b (writes p), failed))

  settle_caller-Moves :
      (r : Response) (p : Pending) (t : Transport)
      → select (waits_for f.id) t.pending ≡ some p
      → Moves P t (settle_caller o m f r p t)
  unfolding settle_caller
  settle_caller-Moves r p t found =
      let acked = acknowledge (m.disk acknowledging) f.id t.outbox in
      Moves-if (not (answers f r p.request_id)) (λ h. done)
        (λ h.
          Moves-if acked.1
            (λ h. and_then (answers_one f.id p (reply_to (answered r.ok r.body) p) found refl) (
              and_then (releases f.id) (
                and_then (calls (m.disk acknowledging) (acknowledges f.id) refl)
                  (schedule_pump-Moves o m _))))
            (λ failed. and_then (loses_one f.id (loses_none t.outbox failed)) (
              and_then (releases f.id) (
                and_then (calls (m.disk acknowledging) (acknowledges f.id) refl)
                  (mark_degraded-Moves o _)))))

  settle_replay-Moves :
      (r : Response) (e : Entry) (t : Transport) → Moves P t (settle_replay o m f r e t)
  unfolding settle_replay
  settle_replay-Moves r e t =
      let acked = acknowledge (m.disk acknowledging) f.id t.outbox in
      Moves-if (not (answers f r e.request_id)) (λ h. done)
        (λ h. and_then (releases f.id) (
          and_then (calls (m.disk acknowledging) (acknowledges f.id) refl) (
            Moves-if acked.1 (λ h. schedule_pump-Moves o m _)
              (λ h. Moves-trans (mark_degraded-Moves o _) (schedule_pump-Moves o m _)))))

  settle_response-Moves : (r : Response) (t : Transport) → Moves P t (settle_response o m f r t)
  unfolding settle_response
  settle_response-Moves r t = elim (Option-cases (select (waits_for f.id) t.pending)) [
    | inr (p, h) ↦ rw (h, settle_response) (settle_caller-Moves r p t h)
    | inl h ↦ elim (Option-cases (get f.id t.outbox)) [
      | inl k ↦ rw (h, k, settle_response) done
      | inr (e, k) ↦ rw (h, k, settle_response) (settle_replay-Moves r e t)
    ]
  ]

  handle_message-Moves : (g : ℕ) (t : Transport) → Moves P t (handle_message o m f g t)
  unfolding handle_message
  handle_message-Moves g t =
      Moves-if (not f.is_response || not (sent_on g (select (is_frame f.id) t.sent_on_gen)))
        (λ h. done) (λ h. read f.response)
    where
      read :
          (r : Option Response)
          → Moves P t (elim r [ none ↦ t | some r ↦ settle_response o m f r t ])
      read none = done
      read (some r) = settle_response-Moves r t

  message_arrives-Moves : (g : ℕ) (t : Transport) → Moves P t (message_arrives o m f g t)
  unfolding message_arrives
  message_arrives-Moves g t = Moves-if _ (λ h. done) (λ h. handle_message-Moves g t)

-- What a run may assume of an event: the id of a new frame is new, and the file is written when a
-- response is acknowledged.
abbrev pub Holds : Event → Transport → Type 0
Holds (asks m e) t = IsNew e.id t
Holds (receives m f g) t = Writes (m.disk acknowledging)
Holds e t = Unit

pub step-Moves : (o : Options) (e : Event) (t : Transport) → Moves (Holds e t) t (step o e t)
step-Moves o (asks m e) t = request-Moves o m e t (λ h. h)
step-Moves o (attempt_timeout m i) t = attempt_expires-Moves o m i t
step-Moves o (pump_timeout m) t = pump_fires-Moves o m t
step-Moves o (on_route m e) t = route_changes-Moves o m e t
step-Moves o (receives m f g) t = message_arrives-Moves o m f (λ h. h) g t
step-Moves o closes t = close-Moves o t
