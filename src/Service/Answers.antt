-- ===== src/Service/Answers.antt =====
-- src/abmind-service.ts: every request is answered once, and what the service counts as in flight is
-- what still waits.
use abmind.Prelude.{
  ℕ, suc, ◌+◌, ◌≤◌, ◌≡◌, refl, ap, String, Bool, true, false, ◌&&◌, not, Option, none, some, List,
  [], ◌∷◌, arith, str_eq, eq_iff, if◌then◌else◌, Bool-cases, Option-cases, inl, inr, length, map,
  All,
}
use text.Mathlib.TextPositions.{eq_refl}
use abmind.Prelude.Table.{count, select, count-append, select_holds}
use abmind.Protocol.{Entry, Parsed, refused, parsed, parse_envelope, is_mutate, outcome_unknown}
use abmind.Ledger.{
  ReservationResult, was_completed, conflict, unknown, still_in_flight, admitted, mark_started,
  reserve,
}
use abmind.Service.{
  Service, Env, Context, Request, Response, Body, failed, Work, InFlightMutation, reply, respond,
  owns, remove, join, waiting, settle_entry, keep_outcome, own, await_owner, by_reservation,
  dispatch_with_idempotency, begin_read, handle_parsed, handle, settle, settle_read, close, clean,
  refusal, dispatch_mutation, take_out, authorize, no_key, put,
}
use abmind.Service.Executions.{Step, asks, settles, ends_read, restarts, cleaned, closes, run}

-- The requests of the kind q among those that wait for a mutation, for anything, and in all.
abbrev pub waits : (String → Bool) → List InFlightMutation → ℕ
waits q [] = 0
waits q (m ∷ ms) = count q (waiting m) + waits q ms

abbrev pub pending : (String → Bool) → Service → ℕ
pending q s = count q s.reading + waits q s.in_flight_mutations

abbrev pub answered : (String → Bool) → Service → ℕ
answered q s = count (λ r. q r.request_id) s.replies

abbrev one : (String → Bool) → String → ℕ
one q id = if q id then 1 else 0

abbrev pub anything : String → Bool
anything id = true

count-anything : (xs : List String) → count anything xs ≡ length xs
count-anything [] = refl
count-anything (x ∷ xs) = ap suc (count-anything xs)

count-le-anything : (q : String → Bool) (xs : List String) → count q xs ≤ count anything xs
count-le-anything q [] = omega arith
count-le-anything q (x ∷ xs) = ground (arith, count-le-anything q xs)

waits-le : (q : String → Bool) (ms : List InFlightMutation) → waits q ms ≤ waits anything ms
waits-le q [] = omega arith
waits-le q (m ∷ ms) = omega (arith, count-le-anything q (waiting m), waits-le q ms)

count-map :
    (q : String → Bool) (b : Body) (ids : List String)
    → count (λ r. q r.request_id) (map (respond b) ids) ≡ count q ids
count-map q b [] = refl
count-map q b (x ∷ xs) = ground (arith, count-map q b xs)

owner :
    (p k : String) (m : InFlightMutation)
    → owns p k m ≡ true
    → (m.principal_id ≡ p) × (m.idempotency_key ≡ k)
owner p k m h = ground (arith, eq_iff m.principal_id p, eq_iff m.idempotency_key k)

waits-remove :
    (q : String → Bool) (p k : String) (ms : List InFlightMutation) (m : InFlightMutation)
    → select (owns p k) ms ≡ some m
    → waits q ms ≡ count q (waiting m) + waits q (remove p k ms)
unfolding remove
waits-remove q p k [] m h = ground arith
waits-remove q p k (x ∷ xs) m h = elim (Bool-cases (owns p k x)) [
  | inl e ↦
      let f : some x ≡ some m = rw e at h in
      let g : x ≡ m = ap (λ o. elim o [ none ↦ x | some y ↦ y ]) f in
      rw e (ap (λ y. count q (waiting y) + waits q xs) g)
  | inr e ↦
      let f : select (owns p k) xs ≡ some m = rw e at h in
      rw e (omega (arith, waits-remove q p k xs m f))
]

waits-join :
    (q : String → Bool) (p k id : String) (ms : List InFlightMutation) (m : InFlightMutation)
    → select (owns p k) ms ≡ some m
    → waits q (join p k id ms) ≡ waits q ms + one q id
unfolding join
waits-join q p k id [] m h = ground arith
waits-join q p k id (x ∷ xs) m h = ground (arith, waits-join q p k id xs m)

count-take_out :
    (q : String → Bool) (id : String) (xs ys : List String)
    → take_out id xs ≡ some ys
    → count q xs ≡ count q ys + one q id
unfolding take_out
count-take_out q id [] ys h = ground arith
count-take_out q id (x ∷ xs) ys h = elim (Bool-cases (str_eq x id)) [
  | inl e ↦
      let f : some xs ≡ some ys = rw e at h in
      let g : xs ≡ ys = ap (λ o. elim o [ none ↦ xs | some zs ↦ zs ]) f in
      let i : x ≡ id = ground (arith, eq_iff x id) in rw (i, g) (ground arith)
  | inr e ↦ elim (Option-cases (take_out id xs)) [
    | inl f ↦ absurd (ground (arith, e, f, h))
    | inr (zs, f) ↦
        let g : some (x ∷ zs) ≡ some ys = rw (e, f) at h in
        let i : x ∷ zs ≡ ys = ap (λ o. elim o [ none ↦ x ∷ zs | some ws ↦ ws ]) g in
        rw (← i) (ground (arith, count-take_out q id xs zs f))
  ]
]

-- From one state to the next, n requests of the kind q come in and none is lost or answered twice; and
-- the count of what is in flight stays right.
pub record Serves (q : String → Bool) (n : ℕ) (s s' : Service) : Type 0 where
  pub kept : answered q s' + pending q s' ≡ answered q s + pending q s + n
  pub steady : s.in_flight ≡ pending anything s → s'.in_flight ≡ pending anything s'

Serves-trans :
    {q : String → Bool} {n m : ℕ} {s s' s'' : Service}
    → Serves q n s s'
    → Serves q m s' s''
    → Serves q (n + m) s s''
Serves-trans x y = record {
  kept = omega (arith, x.kept, y.kept);
  steady = λ e. y.steady (x.steady e);
}

-- A change that no request is part of, before one or after it.
Serves-after :
    {q : String → Bool} {n : ℕ} {s s' s'' : Service}
    → Serves q 0 s s'
    → Serves q n s' s''
    → Serves q n s s''
Serves-after x y = record {
  kept = omega (arith, x.kept, y.kept);
  steady = λ e. y.steady (x.steady e);
}

Serves-then :
    {q : String → Bool} {n : ℕ} {s s' s'' : Service}
    → Serves q n s s'
    → Serves q 0 s' s''
    → Serves q n s s''
Serves-then x y = record {
  kept = omega (arith, x.kept, y.kept);
  steady = λ e. y.steady (x.steady e);
}

Serves-if :
    {q : String → Bool} {n : ℕ} {s x y : Service} (b : Bool)
    → Serves q n s x
    → Serves q n s y
    → Serves q n s (if b then x else y)
Serves-if true f g = f
Serves-if false f g = g

reply-Serves :
    (q : String → Bool) (id : String) (b : Body) (s : Service)
    → Serves q (one q id) s (reply id b s)
reply-Serves q id b s = record { kept = ground arith; steady = λ e. e }

begin_read-Serves :
    (stringify : Response → String) (parse : Option String → Body) (q : String → Bool) (r : Request)
    (s : Service)
    → Serves q (one q r.envelope.request_id) s (begin_read stringify parse r s)
unfolding begin_read
begin_read-Serves stringify parse q r s = record {
  kept = ground arith;
  steady = λ e. omega (arith, e);
}

module _ (stringify : Response → String) (parse : Option String → Body) (q : String → Bool) where
  settle_entry-Serves :
      (env : Env) (m : InFlightMutation) (b : Body) (s : Service)
      → select (owns m.principal_id m.idempotency_key) s.in_flight_mutations ≡ some m
      → Serves q 0 s (settle_entry stringify parse env m b s)
  unfolding settle_entry
  settle_entry-Serves env m b s e =
      let out =
        keep_outcome stringify parse env m.principal_id m.idempotency_key m.request_id b s.rows in
      let left = waits-remove q m.principal_id m.idempotency_key s.in_flight_mutations m e in
      let all = waits-remove anything m.principal_id m.idempotency_key s.in_flight_mutations m e in
      record {
        kept = omega (
          arith,
          left,
          count-append (λ r. q r.request_id) (map (respond out.1) (waiting m)) s.replies,
          count-map q out.1 (waiting m),
        );
        steady = λ h. omega (arith, h, all, count-anything (waiting m));
      }

  own-Serves :
      (env : Env) (m : InFlightMutation) (s : Service)
      → m.joined ≡ []
      → Serves q (one q m.request_id) s (own stringify parse env m s)
  unfolding own
  own-Serves env m s j =
      let rows =
        (mark_started env.start_fails env.later m.principal_id m.idempotency_key s.rows).0 in
      let s' : Service = put stringify parse m (record s { rows = rows }) in
      let mine : owns m.principal_id m.idempotency_key m ≡ true =
        rw (eq_refl m.principal_id, eq_refl m.idempotency_key) refl in
      let put_in : Serves q (one q m.request_id) s s' = record {
        kept = rw j (ground arith);
        steady = λ h. rw j (omega (arith, h));
      } in
      Serves-if (mark_started env.start_fails env.later m.principal_id m.idempotency_key s.rows).1
        (record { kept = put_in.kept; steady = put_in.steady })
        (Serves-then put_in (settle_entry-Serves env m (failed outcome_unknown) s' (rw mine refl)))

  await_owner-Serves :
      (r : Request) (p k m : String) (o : Option InFlightMutation) (s : Service)
      → select (owns p k) s.in_flight_mutations ≡ o
      → Serves q (one q r.envelope.request_id) s (await_owner stringify parse r p k m o s)
  unfolding await_owner
  await_owner-Serves r p k m none s e = reply-Serves q _ _ s
  await_owner-Serves r p k m (some live) s e =
      Serves-if (str_eq live.method m && str_eq live.payload_hash r.payload_hash)
        (record {
          kept = omega (arith, waits-join q p k r.envelope.request_id s.in_flight_mutations live e);
          steady = λ h. omega (
            arith,
            h,
            waits-join anything p k r.envelope.request_id s.in_flight_mutations live e,
          );
        })
        (reply-Serves q _ _ s)

  by_reservation-Serves :
      (env : Env) (c : Context) (r : Request) (e : Entry) (k : String) (res : ReservationResult)
      (s : Service)
      → Serves q (one q r.envelope.request_id) s (by_reservation stringify parse env c r e k res s)
  unfolding by_reservation
  by_reservation-Serves env c r e k (was_completed json) s =
      Serves-if (not (authorize e c)) (reply-Serves q _ _ s) (reply-Serves q _ _ s)
  by_reservation-Serves env c r e k conflict s = reply-Serves q _ _ s
  by_reservation-Serves env c r e k unknown s = reply-Serves q _ _ s
  by_reservation-Serves env c r e k still_in_flight s =
      await_owner-Serves r c.principal_id k e.name _ s refl
  by_reservation-Serves env c r e k admitted s = own-Serves env _ s refl

  dispatch_with_idempotency-Serves :
      (env : Env) (c : Context) (r : Request) (e : Entry) (k : String) (s : Service)
      → Serves q
          (one q r.envelope.request_id)
          s
          (dispatch_with_idempotency stringify parse env c r e k s)
  unfolding dispatch_with_idempotency
  dispatch_with_idempotency-Serves env c r e k s =
      let rows =
        (reserve env.reserve_fails env.now c.principal_id k e.name r.payload_hash s.rows).0 in
      let first : Serves q 0 s (record s { rows = rows }) = record {
        kept = omega arith;
        steady = λ h. h;
      } in
      Serves-if env.reserve_throws (reply-Serves q _ _ s)
        (Serves-after first (by_reservation-Serves env c r e k _ (record s { rows = rows })))

  handle_parsed-Serves :
      (env : Env) (c : Context) (r : Request) (e : Entry) (s : Service)
      → Serves q (one q r.envelope.request_id) s (handle_parsed stringify parse env c r e s)
  unfolding handle_parsed
  handle_parsed-Serves env c r e s = elim (Option-cases (refusal e c r)) [
    | inr (code, f) ↦ simp (f, handle_parsed) (reply-Serves q _ _ s)
    | inl f ↦
        simp (f, handle_parsed)
          (Serves-if (not (is_mutate e.mutation)) (begin_read-Serves stringify parse q r s) (
            Serves-if (no_key stringify parse r.envelope.idempotency_key) (reply-Serves q _ _ s) (
              Serves-if (not s.has_ledger) (reply-Serves q _ _ s)
                (dispatch_with_idempotency-Serves env c r e _ s))))
  ]

  handle-Serves :
      (env : Env) (c : Context) (r : Request) (s : Service)
      → Serves q (one q r.envelope.request_id) s (handle stringify parse env c r s)
  unfolding handle
  handle-Serves env c r s =
      Serves-if s.closed (reply-Serves q _ _ s) (by_envelope (parse_envelope r.envelope))
    where
      by_envelope :
          (x : Parsed)
          → Serves q (one q r.envelope.request_id) s (elim x [
            | refused code ↦ reply r.envelope.request_id (failed code) s
            | parsed e ↦ handle_parsed stringify parse env c r e s
          ])
      by_envelope (refused code) = reply-Serves q _ _ s
      by_envelope (parsed e) = handle_parsed-Serves env c r e s

  settle-Serves :
      (env : Env) (p k : String) (work : Work) (s : Service)
      → Serves q 0 s (settle stringify parse env p k work s)
  unfolding settle
  settle-Serves env p k work s = elim (Option-cases (select (owns p k) s.in_flight_mutations)) [
    | inl e ↦ simp (e, settle) (record { kept = omega arith; steady = λ h. h })
    | inr (m, e) ↦
        let (f, g) = owner p k m (select_holds (owns p k) s.in_flight_mutations m e) in
        simp (e, settle) (settle_entry-Serves env m (dispatch_mutation work) s (simp (f, g) e))
  ]

settle_read-Serves :
    (q : String → Bool) (id : String) (work : Work) (s : Service)
    → Serves q 0 s (settle_read id work s)
unfolding settle_read
settle_read-Serves q id work s = elim (Option-cases (take_out id s.reading)) [
  | inl e ↦ simp (e, settle_read) (record { kept = omega arith; steady = λ h. h })
  | inr (xs, e) ↦
      simp (e, settle_read)
        (record {
          kept = ground (arith, count-take_out q id s.reading xs e);
          steady = λ h. omega (arith, h, count-take_out anything id s.reading xs e);
        })
]

abbrev pub is_restart : Step → Bool
is_restart (restarts now) = true
is_restart x = false

abbrev pub asked : (String → Bool) → List Step → ℕ
asked q [] = 0
asked q (asks env c r ∷ xs) = one q r.envelope.request_id + asked q xs
asked q (x ∷ xs) = asked q xs

module _ (stringify : Response → String) (parse : Option String → Body) (q : String → Bool) where
  run-Serves :
      (xs : List Step) (s : Service)
      → All (λ x. is_restart x ≡ false) xs
      → Serves q (asked q xs) s (run stringify parse xs s)
  unfolding close clean
  run-Serves [] s h = record { kept = omega arith; steady = λ e. e }
  run-Serves (asks env c r ∷ xs) s h =
      Serves-trans (handle-Serves stringify parse q env c r s) (run-Serves xs _ h.1)
  run-Serves (settles env p k work ∷ xs) s h =
      Serves-after (settle-Serves stringify parse q env p k work s) (run-Serves xs _ h.1)
  run-Serves (ends_read id work ∷ xs) s h =
      Serves-after (settle_read-Serves q id work s) (run-Serves xs _ h.1)
  run-Serves (restarts now ∷ xs) s h = cc
  run-Serves (cleaned now ∷ xs) s h =
      Serves-after (record { kept = omega arith; steady = λ e. e })
        (run-Serves xs (clean now s) h.1)
  run-Serves (closes ∷ xs) s h =
      Serves-after (record { kept = omega arith; steady = λ e. e }) (run-Serves xs (close s) h.1)

  -- When nothing is in flight, as `drain` waits for, every request has been answered, and once: over any
  -- steps without a restart, from a service that counts right what it has in flight, the requests of any
  -- kind that are answered are those that were answered or waited before and those that came since.
  pub drained-answered :
      (xs : List Step) (s : Service)
      → All (λ x. is_restart x ≡ false) xs
      → s.in_flight ≡ pending anything s
      → (run stringify parse xs s).in_flight ≡ 0
      → answered q (run stringify parse xs s) ≡ answered q s + pending q s + asked q xs
  drained-answered xs s h e d =
      let end = run stringify parse xs s in
      let sv = run-Serves xs s h in
      omega (
        arith,
        d,
        sv.kept,
        sv.steady e,
        count-le-anything q end.reading,
        waits-le q end.in_flight_mutations,
      )
