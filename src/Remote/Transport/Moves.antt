-- ===== src/Remote/Transport/Moves.antt =====
-- src/remote/signed-wss-transport.ts: the handlers as sequences of small moves. `P` is what a handler's
-- caller may assume of the event; a move that loses a caller, or that reuses the id of a frame, is
-- possible only without it.
use abmind.Prelude.{
  ℕ, ◌+◌, ◌≤◌, ◌≡◌, refl, String, Bool, true, false, ◌&&◌, ◌||◌, not, Option, none, some, List, [],
  ◌∷◌, ◌++◌, map, arith, if◌then◌else◌, length, is_none, inl, inr, Option-cases,
}
use abmind.Prelude.Table.{select, count}
use abmind.Remote.Outbox.{
  Disk, Entry, RetryFailure, timeout, is_terminal, append, get, mark_in_flight, mark_retry_wait,
  mark_terminal_unknown, is_exhausted,
}
use abmind.Remote.Outbox.Delivery.{Call, marks_retry_wait, marks_terminal, apply}
use abmind.Remote.Outbox.Credit.{is_append}
use abmind.Remote.Route.{Route}
use abmind.Remote.Transport.{
  Options, failing, settling, Moment, Pending, Sent, PumpTimer, Outcome, transport_closed,
  not_persisted, outcome_unknown, Reply, Transport, waits_for, is_frame, take_out, reply_to,
  retry_delay, route_ready, abort, close, mark_degraded, schedule_pump, answer_pending,
  release_frame, request_of, with_outbox, settle_terminal_unknown, after_retry_wait, fail_entry,
  record_uncertain_failure, refuse, admit,
}

-- No caller waits for the frame, no entry has its id, and it has not been sent.
pub record IsNew (i : String) (t : Transport) : Type 0 where
  pub not_pending : select (waits_for i) t.pending ≡ none
  pub not_held : get i t.outbox ≡ none
  pub not_sent : count (is_frame i) t.wire ≡ 0

pub data Move (P : Type 0) : Transport → Transport → Type 0 where
  stays :
      {t : Transport} {r : Route} {timer : Option PumpTimer} {c d : Bool}
      → Move P t (record t { route = r; pump_timer = timer; is_closed = c; degraded = d })
  calls :
      {t : Transport} (d : Disk) (c : Call)
      → is_append c ≡ false
      → Move P t (record t { outbox = (apply d c t.outbox).0 })
  declines :
      {t : Transport} (d : Disk) (e : Entry)
      → (append d e t.outbox).1 ≡ false
      → Move P t (record t { outbox = (append d e t.outbox).0 })
  gates :
      {t : Transport} (ss : List Sent) → length ss ≤ 1 → Move P t (record t { sent_on_gen = ss })
  releases : {t : Transport} (i : String) → Move P t (release_frame i t)
  sends :
      {t : Transport} (d : Disk) (now : ℕ) (i : String) (g : ℕ) (e : Entry)
      → get i t.outbox ≡ some e
      → is_exhausted e now ≡ false
      → (mark_in_flight d now i t.outbox).1 ≡ true
      → Move P t (record t {
        outbox = (mark_in_flight d now i t.outbox).0;
        sent_on_gen = record { frame_id = i; generation = g } ∷ [];
        wire = record { frame_id = i; generation = g } ∷ t.wire;
      })
  refuses : {t : Transport} (e : Entry) (outcome : Outcome) → Move P t (refuse e outcome t)
  admits :
      {t : Transport} (d : Disk) (e : Entry)
      → (append d e t.outbox).1 ≡ true
      → (P → IsNew e.id t)
      → Move P t (admit e (append d e t.outbox).0 t)
  answers_one :
      {t : Transport} (i : String) (p : Pending) (r : Reply)
      → select (waits_for i) t.pending ≡ some p
      → r.frame_id ≡ p.frame_id
      → Move P t (record t { pending = take_out i t.pending; replies = r ∷ t.replies })
  loses_one :
      {t : Transport} (i : String)
      → (P → ⊥)
      → Move P t (record t { pending = take_out i t.pending })
  answers_all :
      {t : Transport} (outcome : Outcome)
      → Move P t
          (record t { pending = []; replies = map (reply_to outcome) t.pending ++ t.replies })

pub data Moves (P : Type 0) : Transport → Transport → Type 0 where
  done : {t : Transport} → Moves P t t
  and_then : {t t' t'' : Transport} → Move P t t' → Moves P t' t'' → Moves P t t''

module _ {P : Type 0} where
  pub Moves-trans : {t t' t'' : Transport} → Moves P t t' → Moves P t' t'' → Moves P t t''
  Moves-trans done ys = ys
  Moves-trans (and_then x xs) ys = and_then x (Moves-trans xs ys)

  pub Moves-if :
      {t x y : Transport} (b : Bool)
      → (b ≡ true → Moves P t x)
      → (b ≡ false → Moves P t y)
      → Moves P t (if b then x else y)
  Moves-if true f g = f refl
  Moves-if false f g = g refl

  pub idle :
      {t : Transport} {r : Route} {timer : Option PumpTimer} {c d : Bool}
      → Moves P t (record t { route = r; pump_timer = timer; is_closed = c; degraded = d })
  idle = and_then stays done

  pub one_call :
      {t : Transport} (d : Disk) (c : Call)
      → is_append c ≡ false
      → Moves P t (with_outbox (apply d c t.outbox).0 t)
  one_call d c e = and_then (calls d c e) done

  abort-Moves : (o : Options) (outcome : Outcome) (t : Transport) → Moves P t (abort o outcome t)
  abort-Moves o outcome t = and_then (answers_all outcome) (and_then (gates [] (omega arith)) idle)

  pub close-Moves : (o : Options) (t : Transport) → Moves P t (close o t)
  unfolding close
  close-Moves o t = Moves-trans idle (abort-Moves o transport_closed _)

  pub mark_degraded-Moves : (o : Options) (t : Transport) → Moves P t (mark_degraded o t)
  unfolding mark_degraded
  mark_degraded-Moves o t = Moves-trans idle (abort-Moves o not_persisted _)

  pub schedule_pump-Moves :
      (o : Options) (m : Moment) (t : Transport) → Moves P t (schedule_pump o m t)
  unfolding schedule_pump
  schedule_pump-Moves o m t =
      Moves-if (t.is_closed || t.degraded || not (route_ready m t)) (λ h. done)
        (λ h. Moves-if (not (is_none t.pump_timer)) (λ h. done) (λ h. idle))

  answer_pending-Moves :
      (outcome : Outcome) (i request_id : String) (t : Transport) (w : Option Pending)
      → select (waits_for i) t.pending ≡ w
      → Moves P t (answer_pending outcome i request_id t w)
  answer_pending-Moves outcome i q t none e = done
  answer_pending-Moves outcome i q t (some p) e = and_then (answers_one i p _ e refl) done

  pub release_frame-Moves : (i : String) (t : Transport) → Moves P t (release_frame i t)
  release_frame-Moves i t = and_then (releases i) done

  pub settle-Moves :
      (o : Options) (m : Moment) (i : String) (failure : RetryFailure) (t : Transport)
      → Moves P t (settle_terminal_unknown o m i failure t)
  unfolding settle_terminal_unknown
  settle-Moves o m i failure t =
      let (b, acked) = mark_terminal_unknown (m.disk settling) i failure t.outbox in
      Moves-trans (one_call (m.disk settling) (marks_terminal i failure) refl) (
        Moves-if (not acked && b.degraded) (λ h. mark_degraded-Moves o (with_outbox b t))
          (λ h.
            Moves-trans
              (answer_pending-Moves outcome_unknown i
                (request_of i (get i t.outbox) (select (waits_for i) t.pending)) (with_outbox b t)
                (select (waits_for i) t.pending) refl)
              (Moves-trans (release_frame-Moves i _) (schedule_pump-Moves o m _))))

  after_retry_wait-Moves :
      (o : Options) (m : Moment) (i : String) (failure : RetryFailure) (next : ℕ) (t : Transport)
      → Moves P t
          (after_retry_wait o m (mark_retry_wait (m.disk failing) m.now i failure next t.outbox) t)
  after_retry_wait-Moves o m i failure next t =
      let (b, saved) = mark_retry_wait (m.disk failing) m.now i failure next t.outbox in
      Moves-trans (one_call (m.disk failing) (marks_retry_wait m.now i failure next) refl) (
        Moves-if (not saved && b.degraded) (λ h. mark_degraded-Moves o (with_outbox b t))
          (λ h. schedule_pump-Moves o m (with_outbox b t)))

  fail_entry-Moves :
      (o : Options) (m : Moment) (i : String) (failure : RetryFailure) (e : Entry) (t : Transport)
      → Moves P t (fail_entry o m i failure e t)
  unfolding fail_entry
  fail_entry-Moves o m i failure e t =
      Moves-if (is_terminal e.state) (λ h. done)
        (λ h. Moves-trans (release_frame-Moves i t) (
          Moves-if (is_exhausted e m.now) (λ h. settle-Moves o m i timeout (release_frame i t))
            (λ h.
              after_retry_wait-Moves o m i failure (m.now + retry_delay o (e.attempts + 1) m.jitter)
                (release_frame i t))))

  pub record_failure-Moves :
      (o : Options) (m : Moment) (i : String) (failure : RetryFailure) (t : Transport)
      → Moves P t (record_uncertain_failure o m i failure t)
  unfolding record_uncertain_failure
  record_failure-Moves o m i failure t = elim (Option-cases (get i t.outbox)) [
    | inl h ↦ rw (h, record_uncertain_failure) done
    | inr (e, h) ↦ rw (h, record_uncertain_failure) (fail_entry-Moves o m i failure e t)
  ]
