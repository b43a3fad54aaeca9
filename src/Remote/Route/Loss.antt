-- ===== src/Remote/Route/Loss.antt =====
-- src/remote/route-controller.ts: the phases of the route over a lost socket and `close`.
use abmind.Prelude.{
  ℕ, Option, ◌+◌, ◌≡◌, refl, ◌∙◌, Bool, true, false, ◌||◌, not, none, some, arith, leb, ◌==◌,
  if◌then◌else◌, is_none, ◌⊎◌, inl, inr, Bool-cases,
}
use abmind.Remote.Route.{
  Route, reconnecting, Reason, Options, is_at, set, schedule_reconnect, detach_socket,
  settle_attempt, fail, cleared, lost, shut, settle_only, lose_route, socket_closes, socket_fails,
  close, fail_active, is_stale, connection_failed, transport_closed,
}
use abmind.Remote.Route.Phase.{
  Idle, Bound, Bound-if, set-true, set-here, Timed-settled, schedule_reconnect-Bound,
  unsettled-Idle, restate-Bound, fail-Bound, rebound, Idle-other, settled-Bound,
}

-- The generation stays, what is settled stays so, and a route without capabilities gets none.
pub record Keeps (r r' : Route) : Type 0 where
  same_generation : r'.generation ≡ r.generation
  still_settled : (h : ℕ) → r.settled h ≡ true → r'.settled h ≡ true
  idle : Idle r → Idle r'

pub Keeps-if : (b : Bool) {r x y : Route} → Keeps r x → Keeps r y → Keeps r (if b then x else y)
Keeps-if true f g = f
Keeps-if false f g = g

pub Keeps-refl : {r : Route} → Keeps r r
Keeps-refl = record { same_generation = refl; still_settled = λ h e. e; idle = λ i. i }

pub Keeps-trans : {r r' r'' : Route} → Keeps r r' → Keeps r' r'' → Keeps r r''
Keeps-trans x y = record {
  same_generation = y.same_generation ∙ x.same_generation;
  still_settled = λ h e. y.still_settled h (x.still_settled h e);
  idle = λ i. y.idle (x.idle i);
}

pub schedule_reconnect-Keeps : (o : Options) (r : Route) → Keeps r (schedule_reconnect o r)
unfolding schedule_reconnect
schedule_reconnect-Keeps o r =
    Keeps-if (r.is_closed || not (is_none r.reconnect_timer)) Keeps-refl (
      Keeps-if (leb o.max_attempts r.reconnect_attempts)
        (record {
          same_generation = refl;
          still_settled = λ h e. e;
          idle = λ i. record {
            not_ready = refl;
            no_capabilities = i.no_capabilities;
            not_negotiated = i.not_negotiated;
          };
        })
        (record {
          same_generation = refl;
          still_settled = λ h e. e;
          idle = λ i. Idle-other refl refl refl i;
        }))

pub fail-Keeps :
    (o : Options) (g : ℕ) (q : Reason) (t : Bool) (r : Route) → Keeps r (fail o g q t r)
unfolding fail settle_attempt detach_socket
fail-Keeps o g q t r =
    let settled_at : (h : ℕ) → r.settled h ≡ true → set g true r.settled h ≡ true =
      λ h e. set-true g h r.settled e in
    Keeps-if (r.settled g) Keeps-refl (
      Keeps-if (r.is_closed || not (g == r.generation))
        (record {
          same_generation = refl;
          still_settled = settled_at;
          idle = λ i. Idle-other refl refl refl i;
        })
        (Keeps-if t
          (Keeps-trans
            (record {
              same_generation = refl;
              still_settled = settled_at;
              idle = λ i. record {
                not_ready = refl;
                no_capabilities = i.no_capabilities;
                not_negotiated = i.not_negotiated;
              };
            })
            (schedule_reconnect-Keeps o _))
          (record {
            same_generation = refl;
            still_settled = settled_at;
            idle = λ i. record { not_ready = refl; no_capabilities = refl; not_negotiated = refl };
          })))

pub fail_active-Keeps :
    (o : Options) (g : ℕ) (active : Option ℕ) (r : Route) → Keeps r (fail_active o g active r)
fail_active-Keeps o g active r =
    Keeps-if (is_at g active) (fail-Keeps o g transport_closed true r) Keeps-refl

pub fail_active-Bound :
    (o : Options) (g : ℕ) (active : Option ℕ) (r : Route)
    → Bound o r
    → Bound o (fail_active o g active r)
fail_active-Bound o g active r b =
    Bound-if o (is_at g active) _ r (λ e. fail-Bound o g transport_closed true r b) (λ e. b)

-- The generation after the current one has no attempt yet.
pub next-Bound :
    (o : Options) (r r' : Route)
    → Idle r'
    → r'.generation ≡ r.generation + 1
    → r'.settled ≡ r.settled
    → r'.reconnect_attempts ≡ r.reconnect_attempts
    → (r'.reconnect_timer ≡ none) ⊎ (r'.reconnect_timer ≡ r.reconnect_timer)
    → Bound o r
    → Bound o r'
next-Bound o r r' i g s a t b =
    let later : r'.settled r'.generation ≡ true =
      rw (s, g) (b.future (r.generation + 1) (omega arith)) in
    record {
      phase = inl i;
      timed = elim t [
        | inl e ↦ rw e tt
        | inr e ↦ rw (e, later) (Timed-settled o r.reconnect_timer _ true (λ x. refl) b.timed)
      ];
      future = λ h l. rw s (b.future h (omega (arith, l, g)));
      attempts = rw a b.attempts;
    }

-- A loss of the route whose attempt has settled by now, or had before.
pub lost-Bound :
    (o : Options) (g : ℕ) (a : Option ℕ) (r : Route)
    → Bound o r
    → Bound o (schedule_reconnect o (lost g (cleared a r)))
lost-Bound o g a r b =
    let i : Idle (lost g (cleared a r)) = record {
      not_ready = refl;
      no_capabilities = refl;
      not_negotiated = refl;
    } in
    schedule_reconnect-Bound o _ i (b.future (r.generation + 1) (omega arith))
      (next-Bound o r _ i refl refl refl (inr refl) b)

pub lost_attempt-Bound :
    (o : Options) (g : ℕ) (a : Option ℕ) (r : Route)
    → Bound o r
    → Bound o (schedule_reconnect o (lost g (settle_attempt g (cleared a r))))
unfolding settle_attempt detach_socket
lost_attempt-Bound o g a r b =
    let i : Idle (lost g (settle_attempt g (cleared a r))) = record {
      not_ready = refl;
      no_capabilities = refl;
      not_negotiated = refl;
    } in
    let b' = settled-Bound o g r b in
    schedule_reconnect-Bound o _ i (b'.future (r.generation + 1) (omega arith))
      (next-Bound o (record r { settled = set g true r.settled }) _ i refl refl refl (inr refl) b')

pub lose_route-Bound : (o : Options) (g : ℕ) (r : Route) → Bound o r → Bound o (lose_route o g r)
unfolding lose_route fail
lose_route-Bound o g r b =
    Bound-if o (is_stale g r) r _ (λ e. b)
      (λ e.
        let gone : (r.is_closed || not (g == r.generation + 1)) ≡ true = ground (arith, e) in
        elim (Bool-cases (is_at g r.active_establishment)) [
          | inr f ↦ rw f (lost-Bound o g _ r b)
          | inl f ↦ rw f (elim (Bool-cases (r.settled g)) [
            | inl h ↦ rw h (lost-Bound o g _ r b)
            | inr h ↦ rw (h, gone) (lost_attempt-Bound o g _ r b)
          ])
        ])

pub schedule_reconnect-settled :
    (o : Options) (g : ℕ) (r : Route)
    → settle_only g (schedule_reconnect o r) ≡ schedule_reconnect o (settle_only g r)
unfolding schedule_reconnect
schedule_reconnect-settled o g r =
    elim (Bool-cases (r.is_closed || not (is_none r.reconnect_timer))) [
      | inl e ↦ rw e refl
      | inr e ↦ rw e (elim (Bool-cases (leb o.max_attempts r.reconnect_attempts)) [
        | inl f ↦ rw f refl
        | inr f ↦ rw f refl
      ])
    ]

pub socket_closes-Bound :
    (o : Options) (g : ℕ) (r : Route) → Bound o r → Bound o (socket_closes o g r)
unfolding socket_closes
socket_closes-Bound o g r b =
    Bound-if o r.is_closed _ _ (λ e. settled-Bound o g r b)
      (λ e.
        Bound-if o (not (g == r.generation)) r _ (λ f. b)
          (λ f.
            Bound-if o (r.connected g) _ _ (λ h. lose_route-Bound o g r b)
              (λ h.
                Bound-if o (r.settled g) r _ (λ k. b)
                  (λ k.
                    let p : g ≡ r.generation = ground (arith, f) in
                    let i = unsettled-Idle o r b (rw p at k) in
                    let c =
                      restate-Bound o _ reconnecting (some connection_failed) refl
                        (Idle-other refl refl refl i) (settled-Bound o g r b) in
                    let j : Idle (record r {
                      settled = set g true r.settled;
                      state = reconnecting;
                      reason_code = some connection_failed;
                    }) =
                      record {
                        not_ready = refl;
                        no_capabilities = i.no_capabilities;
                        not_negotiated = i.not_negotiated;
                      } in
                    rw
                      (schedule_reconnect-settled o g
                        (record r { state = reconnecting; reason_code = some connection_failed }))
                      (schedule_reconnect-Bound o _ j (rw p (set-here r.generation true r.settled))
                        c)))))

pub socket_fails-Bound :
    (o : Options) (g : ℕ) (r : Route) → Bound o r → Bound o (socket_fails o g r)
unfolding socket_fails
socket_fails-Bound o g r b =
    Bound-if o r.is_closed _ _ (λ e. settled-Bound o g r b)
      (λ e.
        Bound-if o (not (g == r.generation) || r.connected g) r _ (λ f. b)
          (λ f. fail-Bound o g connection_failed true r b))

pub close-Bound : (o : Options) (r : Route) → Bound o r → Bound o (close o r)
unfolding close
close-Bound o r b =
    let i : Idle (shut r) = record {
      not_ready = refl;
      no_capabilities = refl;
      not_negotiated = refl;
    } in
    let s = next-Bound o r (shut r) i refl refl refl (inl refl) b in
    let j = (fail_active-Keeps o r.generation r.active_establishment (shut r)).idle i in
    let f = fail_active-Bound o r.generation r.active_establishment (shut r) s in
    rebound o _ _ (inl (Idle-other refl refl refl j)) refl refl f.future refl f
