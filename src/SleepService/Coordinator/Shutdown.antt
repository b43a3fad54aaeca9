-- ===== src/SleepService/Coordinator/Shutdown.antt =====
-- src/sleep-service/sleep-coordinator.ts: how a run ends, by its service or by the end of the daemon.
use abmind.Prelude.{ℕ, ◌≡◌, refl, ◌∙◌, ap, String, Bool, true, Option, none, some, []}
use text.Mathlib.TextPositions.{eq_refl}
use abmind.SleepService.Runtime.{Broker}
use abmind.SleepService.Broker.{set_run_terminal}
use abmind.SleepService.Broker.Lease.{Sound, set_run_terminal-empty, close_lease-none}
use abmind.SleepService.Events.{EventRing, push, set_terminal}
use abmind.SleepService.Events.Open.{set_terminal-closed}
use abmind.SleepService.Coordinator.{
  Coordinator, ActiveRun, ServiceResult, Validator, persist, service_settled, service_failed,
  close_run, interrupt, shutdown, active_is, clear, finished, interruption, Validator,
}
use abmind.SleepService.Coordinator.Preservation.{
  Agrees, interrupt-Agrees, interrupt-active, persist-persisted,
}

-- Nothing waits any more: no run, a closed ring with no reader, and a broker with no lease, no pending
-- completion and no parked caller.
pub record Over (c : Coordinator) : Type 0 where
  pub no_run : c.active_run ≡ none
  pub closed : c.event_ring.terminal ≡ true
  pub no_reader : c.event_ring.waiters ≡ []
  pub no_lease : c.broker.lease_id ≡ none
  pub no_pending : c.broker.pending ≡ none
  pub no_caller : c.broker.waiters ≡ []

pub closed-Over :
    (now : ℕ) (c : Coordinator) (ring : EventRing) (b : Broker)
    → c.active_run ≡ none
    → Sound b
    → Over (record c { event_ring = set_terminal ring; broker = set_run_terminal now b })
closed-Over now c ring b e s =
    let (t, w, i) = set_terminal-closed ring in
    let (l, p, n) = set_run_terminal-empty now b s.calm.unclosed in
    record { no_run = e; closed = t; no_reader = w; no_lease = l; no_pending = p; no_caller = n }

-- After a shutdown nothing waits any more, whatever state the coordinator, its ring and its broker were
-- in, as long as they agreed.
pub shutdown-Over :
    (now : ℕ) (written : Bool) (c : Coordinator) → Agrees c → Over (shutdown now written c)
unfolding shutdown
shutdown-Over now written c a =
    let c' = interrupt now written c in
    let o =
      closed-Over now c' c'.event_ring c'.broker (interrupt-active now written c)
        (interrupt-Agrees now written c a).sound in
    rw (close_lease-none now "" (set_run_terminal now c'.broker) o.no_lease) o

Over-persist : (written : Bool) (c : Coordinator) → Over c → Over (persist written c)
Over-persist written c o = rw (persist-persisted written c) (record {
  no_run = o.no_run;
  closed = o.closed;
  no_reader = o.no_reader;
  no_lease = o.no_lease;
  no_pending = o.no_pending;
  no_caller = o.no_caller;
})

active_is-run_id : (a : ActiveRun) → active_is a.run_id (some a) ≡ some a
active_is-run_id a = rw (eq_refl a.run_id) refl

-- The run that the service settles is over: nothing waits any more, and the last run is what the service
-- says, with the steps that the ring counts.
pub service_settled-Over :
    (now : ℕ) (written : Bool) (a : ActiveRun) (result : ServiceResult) (c : Coordinator)
    → Agrees c
    → c.active_run ≡ some a
    → Over (service_settled now written a.run_id result c)
      × ((service_settled now written a.run_id result c).last_run
          ≡ some (finished now a result c.event_ring))
unfolding service_settled close_run
service_settled-Over now written a result c g e =
    let found : active_is a.run_id c.active_run ≡ some a = rw e (active_is-run_id a) in
    let o =
      closed-Over now (clear (finished now a result (set_terminal c.event_ring)) c) c.event_ring
        c.broker refl g.sound in
    simp (found, service_settled)
      (
        Over-persist written _ o,
        ap (λ d. d.last_run) (persist-persisted written _)
            ∙ ap (λ items. some (finished now a result (record c.event_ring { items = items })))
                ((set_terminal-closed c.event_ring).2),
      )

-- The answer of a service that comes after a shutdown changes nothing, whichever run it is for and
-- whether the service returns or throws.
pub shutdown-late :
    (now later : ℕ) (written again : Bool) (id : String) (result : ServiceResult)
    (validate : Validator) (report : Option String) (c : Coordinator)
    → (service_settled later again id result (shutdown now written c) ≡ shutdown now written c)
      × (service_failed later again id validate report (shutdown now written c)
          ≡ shutdown now written c)
unfolding shutdown service_settled service_failed
shutdown-late now later written again id result validate report c =
    let e = interrupt-active now written c in
    (simp (e, service_settled) refl, simp (e, service_failed) refl)

-- A run that the end of the daemon interrupts is the last run, interrupted and resumable.
pub shutdown-last_run :
    (now : ℕ) (written : Bool) (a : ActiveRun) (c : Coordinator)
    → c.active_run ≡ some a
    → (shutdown now written c).last_run
      ≡ some (finished now a interruption (push now "run_interrupted" none c.event_ring))
unfolding shutdown interrupt
shutdown-last_run now written a c e =
    simp (e, interrupt) (ap (λ d. d.last_run) (persist-persisted written _))

pub shutdown-persisted :
    (now : ℕ) (a : ActiveRun) (c : Coordinator)
    → c.active_run ≡ some a
    → c.has_path ≡ true
    → (shutdown now true c).persisted
      ≡ some (finished now a interruption (push now "run_interrupted" none c.event_ring))
unfolding shutdown interrupt persist
shutdown-persisted now a c e p = simp (e, p, interrupt) refl
