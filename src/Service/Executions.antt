-- ===== src/Service/Executions.antt =====
-- src/abmind-service.ts over the ledger of src/abmind-request-ledger.ts: what the service's steps do to
-- the table of requests, and how often a mutation is dispatched.
use abmind.Prelude.{
  ℕ, ◌+◌, ◌≤◌, ◌≡◌, refl, sym, ◌∙◌, ap, String, Bool, true, false, ◌&&◌, not, Option, none, some,
  List, [], ◌∷◌, ◌++◌, arith, str_eq, if◌then◌else◌, Bool-cases, Option-cases, inl, inr,
}
use abmind.Prelude.Table.{count, select}
use abmind.Protocol.{Entry, outcome_unknown, Parsed, refused, parsed, parse_envelope, is_mutate}
use abmind.Ledger.{
  Row, ReservationResult, was_completed, conflict, unknown, still_in_flight, admitted, mark_started,
  complete,
}
use abmind.Ledger.Phase.{IsKeyed}
use abmind.Ledger.History
use abmind.Ledger.History.{
  reserves, marks_started, completes, marks_unknown, recovers, cleans, is_cleanup,
}
use abmind.Ledger.Dispatch.{started, dispatches, cleanups, dispatches-le}
use abmind.Service.{
  Service, Env, Context, Request, Response, Body, failed, Work, InFlightMutation, reply, owns,
  settle_entry, keep_outcome, own, await_owner, by_reservation, dispatch_with_idempotency,
  begin_read, handle_parsed, handle, settle, settle_read, close, restart, clean, refusal,
  dispatch_mutation, take_out, authorize, is_unknown_outcome, respond, no_key,
}

pub data Step : Type 0 where
  asks : Env → Context → Request → Step
  settles : Env → String → String → Work → Step
  ends_read : String → Work → Step
  restarts cleaned : ℕ → Step
  closes : Step

module _ (stringify : Response → String) (parse : Option String → Body) where
  abbrev pub step : Step → Service → Service
  step (asks env c r) s = handle stringify parse env c r s
  step (settles env p k work) s = settle stringify parse env p k work s
  step (ends_read id work) s = settle_read id work s
  step (restarts now) s = restart now s
  step (cleaned now) s = clean now s
  step closes s = close s

  abbrev pub run : List Step → Service → Service
  run [] s = s
  run (x ∷ xs) s = run xs (step x s)

abbrev pub is_clean : Step → Bool
is_clean (cleaned now) = true
is_clean x = false

abbrev pub cleanings : List Step → ℕ
cleanings [] = 0
cleanings (x ∷ xs) = (if is_clean x then 1 else 0) + cleanings xs

-- Whether a dispatch is one of the key.
abbrev pub is_of : String → String → String × String → Bool
is_of p k (p', k') = str_eq p' p && str_eq k' k

abbrev pub executions : String → String → Service → ℕ
executions p k s = count (is_of p k) s.dispatched

run-append :
    (cs ds : List History.Call) (rows : List Row)
    → History.run (cs ++ ds) rows ≡ History.run ds (History.run cs rows)
run-append [] ds rows = refl
run-append (c ∷ cs) ds rows = run-append cs ds (History.step c rows)

dispatches-append :
    (p k : String) (cs ds : List History.Call) (rows : List Row)
    → dispatches p k (cs ++ ds) rows
      ≡ dispatches p k cs rows + dispatches p k ds (History.run cs rows)
dispatches-append p k [] ds rows = omega arith
dispatches-append p k (c ∷ cs) ds rows =
    omega (arith, dispatches-append p k cs ds (History.step c rows))

cleanups-append : (cs ds : List History.Call) → cleanups (cs ++ ds) ≡ cleanups cs + cleanups ds
cleanups-append [] ds = omega arith
cleanups-append (c ∷ cs) ds = omega (arith, cleanups-append cs ds)

-- The service goes from one state to the other by calls of the ledger, n of them `cleanup`, and it
-- dispatches the key just where the ledger lets it start.
pub record Simulates (p k : String) (n : ℕ) (s s' : Service) : Type 0 where
  pub calls : List History.Call
  pub table : s'.rows ≡ History.run calls s.rows
  pub executed : executions p k s' ≡ executions p k s + dispatches p k calls s.rows
  pub cleaned_up : cleanups calls ≡ n

Simulates-trans :
    {p k : String} {n m : ℕ} {s s' s'' : Service}
    → Simulates p k n s s'
    → Simulates p k m s' s''
    → Simulates p k (n + m) s s''
Simulates-trans {p} {k} {n} {m} {s} x y = record {
  calls = x.calls ++ y.calls;
  table = y.table ∙ ap (History.run y.calls) x.table ∙ sym (run-append x.calls y.calls s.rows);
  executed =
      (let h = rw x.table at y.executed in
        omega (arith, h, x.executed, dispatches-append p k x.calls y.calls s.rows));
  cleaned_up = omega (arith, cleanups-append x.calls y.calls, x.cleaned_up, y.cleaned_up);
}

-- The table and the dispatches stay.
Simulates-same :
    (p k : String) {s s' : Service}
    → s'.rows ≡ s.rows
    → s'.dispatched ≡ s.dispatched
    → Simulates p k 0 s s'
Simulates-same p k e f = record {
  calls = [];
  table = e;
  executed = rw f (omega arith);
  cleaned_up = refl;
}

-- One call of the ledger that starts nothing.
Simulates-call :
    (p k : String) (c : History.Call) {s s' : Service}
    → s'.rows ≡ History.step c s.rows
    → s'.dispatched ≡ s.dispatched
    → started p k c s.rows ≡ 0
    → Simulates p k (if is_cleanup c then 1 else 0) s s'
Simulates-call p k c e f g = record {
  calls = c ∷ [];
  table = e;
  executed = rw (f, g) (omega arith);
  cleaned_up = omega arith;
}

Simulates-if :
    {p k : String} {n : ℕ} {s x y : Service} (b : Bool)
    → Simulates p k n s x
    → Simulates p k n s y
    → Simulates p k n s (if b then x else y)
Simulates-if true f g = f
Simulates-if false f g = g

reply-Simulates :
    (p k : String) (id : String) (b : Body) (s : Service) → Simulates p k 0 s (reply id b s)
reply-Simulates p k id b s = Simulates-same p k refl refl

module _ (stringify : Response → String) (parse : Option String → Body) (p k : String) where
  settle_entry-Simulates :
      (env : Env) (m : InFlightMutation) (b : Body) (s : Service)
      → Simulates p k 0 s (settle_entry stringify parse env m b s)
  unfolding settle_entry keep_outcome
  settle_entry-Simulates env m b s =
      let json = stringify (respond b m.request_id) in
      let done = complete env.complete_fails env.now m.principal_id m.idempotency_key json s.rows in
      elim (Bool-cases (is_unknown_outcome b)) [
        | inl e ↦ rw e (
            Simulates-call p k
              (marks_unknown env.unknown_fails env.now m.principal_id m.idempotency_key) refl refl
              refl)
        | inr e ↦ elim (Bool-cases done.1) [
          | inl f ↦
              rw (e, f)
                (Simulates-call p k
                  (completes env.complete_fails env.now m.principal_id m.idempotency_key json) refl
                  refl refl)
          | inr f ↦
              rw (e, f)
                (record {
                  calls =
                      completes env.complete_fails env.now m.principal_id m.idempotency_key json
                      ∷ marks_unknown env.unknown_fails env.later m.principal_id m.idempotency_key
                      ∷ [];
                  table = refl;
                  executed = omega arith;
                  cleaned_up = refl;
                })
        ]
      ]

  own-Simulates :
      (env : Env) (m : InFlightMutation) (s : Service)
      → Simulates p k 0 s (own stringify parse env m s)
  unfolding own
  own-Simulates env m s =
      let c = marks_started env.start_fails env.later m.principal_id m.idempotency_key in
      elim (Bool-cases
        (mark_started env.start_fails env.later m.principal_id m.idempotency_key s.rows).1) [
          | inl e ↦ rw e (record {
            calls = c ∷ [];
            table = refl;
            executed = ground (arith, e);
            cleaned_up = refl;
          })
          | inr e ↦ rw e (
              Simulates-trans (Simulates-call p k c refl refl (ground (arith, e)))
                (settle_entry-Simulates env m (failed outcome_unknown) _))
        ]

  await_owner-Simulates :
      (r : Request) (p' k' m : String) (o : Option InFlightMutation) (s : Service)
      → Simulates p k 0 s (await_owner stringify parse r p' k' m o s)
  unfolding await_owner
  await_owner-Simulates r p' k' m none s = reply-Simulates p k _ _ s
  await_owner-Simulates r p' k' m (some live) s =
      Simulates-if (str_eq live.method m && str_eq live.payload_hash r.payload_hash)
        (Simulates-same p k refl refl) (reply-Simulates p k _ _ s)

  by_reservation-Simulates :
      (env : Env) (c : Context) (r : Request) (e : Entry) (k' : String) (res : ReservationResult)
      (s : Service)
      → Simulates p k 0 s (by_reservation stringify parse env c r e k' res s)
  unfolding by_reservation
  by_reservation-Simulates env c r e k' (was_completed json) s =
      Simulates-if (not (authorize e c)) (reply-Simulates p k _ _ s) (reply-Simulates p k _ _ s)
  by_reservation-Simulates env c r e k' conflict s = reply-Simulates p k _ _ s
  by_reservation-Simulates env c r e k' unknown s = reply-Simulates p k _ _ s
  by_reservation-Simulates env c r e k' still_in_flight s =
      await_owner-Simulates r c.principal_id k' e.name _ s
  by_reservation-Simulates env c r e k' admitted s = own-Simulates env _ s

  dispatch_with_idempotency-Simulates :
      (env : Env) (c : Context) (r : Request) (e : Entry) (k' : String) (s : Service)
      → Simulates p k 0 s (dispatch_with_idempotency stringify parse env c r e k' s)
  unfolding dispatch_with_idempotency
  dispatch_with_idempotency-Simulates env c r e k' s =
      let call = reserves env.reserve_fails env.now c.principal_id k' e.name r.payload_hash in
      let reserved : Service = record s { rows = History.step call s.rows } in
      let first : Simulates p k 0 s reserved = Simulates-call p k call refl refl refl in
      Simulates-if env.reserve_throws (reply-Simulates p k _ _ s)
        (Simulates-trans first (by_reservation-Simulates env c r e k' _ reserved))

  handle_parsed-Simulates :
      (env : Env) (c : Context) (r : Request) (e : Entry) (s : Service)
      → Simulates p k 0 s (handle_parsed stringify parse env c r e s)
  unfolding handle_parsed begin_read
  handle_parsed-Simulates env c r e s = elim (Option-cases (refusal e c r)) [
    | inr (code, f) ↦ simp (f, handle_parsed) (reply-Simulates p k _ _ s)
    | inl f ↦
        simp (f, handle_parsed)
          (Simulates-if (not (is_mutate e.mutation)) (Simulates-same p k refl refl) (
            Simulates-if (no_key stringify parse r.envelope.idempotency_key)
              (reply-Simulates p k _ _ s)
              (Simulates-if (not s.has_ledger) (reply-Simulates p k _ _ s)
                (dispatch_with_idempotency-Simulates env c r e _ s))))
  ]

  handle-Simulates :
      (env : Env) (c : Context) (r : Request) (s : Service)
      → Simulates p k 0 s (handle stringify parse env c r s)
  unfolding handle
  handle-Simulates env c r s =
      Simulates-if s.closed (reply-Simulates p k _ _ s) (by_envelope (parse_envelope r.envelope))
    where
      by_envelope :
          (x : Parsed)
          → Simulates p k 0 s (elim x [
            | refused code ↦ reply r.envelope.request_id (failed code) s
            | parsed e ↦ handle_parsed stringify parse env c r e s
          ])
      by_envelope (refused code) = reply-Simulates p k _ _ s
      by_envelope (parsed e) = handle_parsed-Simulates env c r e s

  settle-Simulates :
      (env : Env) (p' k' : String) (work : Work) (s : Service)
      → Simulates p k 0 s (settle stringify parse env p' k' work s)
  unfolding settle
  settle-Simulates env p' k' work s =
      elim (Option-cases (select (owns p' k') s.in_flight_mutations)) [
        | inl e ↦ simp (e, settle) (Simulates-same p k refl refl)
        | inr (m, e) ↦ simp (e, settle) (settle_entry-Simulates env m (dispatch_mutation work) s)
      ]

settle_read-Simulates :
    (p k : String) (id : String) (work : Work) (s : Service)
    → Simulates p k 0 s (settle_read id work s)
unfolding settle_read
settle_read-Simulates p k id work s = elim (Option-cases (take_out id s.reading)) [
  | inl e ↦ simp (e, settle_read) (Simulates-same p k refl refl)
  | inr (xs, e) ↦ simp (e, settle_read) (Simulates-same p k refl refl)
]

module _ (stringify : Response → String) (parse : Option String → Body) (p k : String) where
  step-Simulates :
      (x : Step) (s : Service)
      → Simulates p k (if is_clean x then 1 else 0) s (step stringify parse x s)
  unfolding restart clean close
  step-Simulates (asks env c r) s = handle-Simulates stringify parse p k env c r s
  step-Simulates (settles env p' k' work) s = settle-Simulates stringify parse p k env p' k' work s
  step-Simulates (ends_read id work) s = settle_read-Simulates p k id work s
  step-Simulates (restarts now) s = Simulates-call p k (recovers now) refl refl refl
  step-Simulates (cleaned now) s = Simulates-call p k (cleans now) refl refl refl
  step-Simulates closes s = Simulates-same p k refl refl

  -- The service implements the ledger: whatever requests come, whatever their handlers do, and wherever
  -- the process is stopped and started again, the table is what some calls of the ledger make of it, with
  -- as many calls of `cleanup` as the service makes, and a key is dispatched as often as those calls
  -- start it.
  pub run-Simulates :
      (xs : List Step) (s : Service) → Simulates p k (cleanings xs) s (run stringify parse xs s)
  run-Simulates [] s = Simulates-same p k refl refl
  run-Simulates (x ∷ xs) s =
      Simulates-trans (step-Simulates x s) (run-Simulates xs (step stringify parse x s))

  -- A mutation is dispatched once at most between two runs of `cleanup`: over any requests, settlements
  -- and restarts of a service that has dispatched nothing yet, `dispatchMutation` runs for a key at most
  -- one time more than the table is cleaned up.
  pub executions-le :
      (xs : List Step) (s : Service)
      → IsKeyed s.rows
      → s.dispatched ≡ []
      → executions p k (run stringify parse xs s) ≤ 1 + cleanings xs
  executions-le xs s u e =
      let sim = run-Simulates xs s in
      let zero_before : executions p k s ≡ 0 = rw e refl in
      omega (arith, sim.executed, sim.cleaned_up, zero_before, dispatches-le p k sim.calls s.rows u)
