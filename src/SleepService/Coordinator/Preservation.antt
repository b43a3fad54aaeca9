-- ===== src/SleepService/Coordinator/Preservation.antt =====
-- src/sleep-service/sleep-coordinator.ts: what each operation of the coordinator keeps of the agreement
-- between its run, its broker and its event ring.
use abmind.Prelude.{
  ℕ, ◌≡◌, refl, String, Bool, true, false, ◌&&◌, ◌||◌, not, Option, none, some, is_none, arith, ap,
  Bool-cases, Option-cases, inl, inr, str_eq,
}
use abmind.SleepService.Broker.{set_run_terminal}
use abmind.SleepService.Broker.Lease.{Sound, Settled-Sound, set_run_terminal-Settled}
use abmind.SleepService.Broker.Steps.{initial-Sound}
use abmind.SleepService.Events.{EventRing, empty_ring, push, set_terminal}
use abmind.SleepService.Events.Open.{push-terminal}
use abmind.SleepService.Events.Ring
use abmind.SleepService.Events.Ring.{Latest, step-Latest, empty_ring-Latest}
use abmind.SleepService.Coordinator.{
  Coordinator, ActiveRun, LastRun, ServiceResult, Validator, Checkpoint, valid, invalid,
  unregistered, new_coordinator, push_event, persist, start, begin, service_settled, service_failed,
  close_run, finished, resume, resume_last, repair, cancel, interrupt, active_is, clear, named_run,
  repaired, interruption,
}

-- What a run of its own has: an abort signal, a cancellation that has raised it, a ring that is open.
pub record Agrees (c : Coordinator) : Type 0 where
  pub open_ring : is_none c.active_run || not c.event_ring.terminal ≡ true
  pub has_signal : is_none c.abort ≡ is_none c.active_run
  pub raised : c.pending_cancel ≡ true → c.abort ≡ some true
  pub sound : Sound c.broker
  pub latest : Latest c.event_ring

pub new_coordinator-Agrees :
    (has_path : Bool) (last : Option LastRun) → Agrees (new_coordinator has_path last)
new_coordinator-Agrees has_path last = record {
  open_ring = refl;
  has_signal = refl;
  raised = λ e. ground (arith, e);
  sound = initial-Sound;
  latest = empty_ring-Latest;
}

-- A change of the ring that leaves it as open as it was.
pub ring-Agrees :
    (c : Coordinator) (r : EventRing)
    → r.terminal ≡ c.event_ring.terminal
    → Latest r
    → Agrees c
    → Agrees (record c { event_ring = r })
ring-Agrees c r e l a = record {
  open_ring = rw e a.open_ring;
  has_signal = a.has_signal;
  raised = a.raised;
  sound = a.sound;
  latest = l;
}

-- No run, and nothing that a run has.
pub idle-Agrees :
    (c : Coordinator)
    → c.active_run ≡ none
    → c.abort ≡ none
    → c.pending_cancel ≡ false
    → Sound c.broker
    → Latest c.event_ring
    → Agrees c
idle-Agrees c e f g s l = record {
  open_ring = rw e refl;
  has_signal = rw (e, f) refl;
  raised = λ h. ground (arith, g, h);
  sound = s;
  latest = l;
}

pub push-Latest :
    (now : ℕ) (kind : String) (detail : Option String) (r : EventRing)
    → Latest r
    → Latest (push now kind detail r)
push-Latest now kind detail r = step-Latest (Ring.pushes now kind detail) r

pub push_event-Agrees :
    (now : ℕ) (kind : String) (detail : Option String) (c : Coordinator)
    → Agrees c
    → Agrees (push_event now kind detail c)
unfolding push_event
push_event-Agrees now kind detail c a =
    ring-Agrees c _ (push-terminal now kind detail c.event_ring)
      (push-Latest now kind detail c.event_ring a.latest) a

pub persist-Agrees : (written : Bool) (c : Coordinator) → Agrees c → Agrees (persist written c)
unfolding persist
persist-Agrees written c a = elim (Bool-cases (c.has_path && not (is_none c.last_run) && written)) [
  | inl e ↦ rw e (record {
    open_ring = a.open_ring;
    has_signal = a.has_signal;
    raised = a.raised;
    sound = a.sound;
    latest = a.latest;
  })
  | inr e ↦ rw e a
]

pub begin-Agrees :
    (now : ℕ) (id mode : String) (c : Coordinator) → Agrees c → Agrees (begin now id mode c)
unfolding begin
begin-Agrees now id mode c a = record {
  open_ring = rw (push-terminal now "cycle_started" (some mode) empty_ring) refl;
  has_signal = refl;
  raised = λ e. ground (arith, e);
  sound = a.sound;
  latest = push-Latest now "cycle_started" (some mode) empty_ring empty_ring-Latest;
}

pub start-Agrees :
    (now : ℕ) (id mode : String) (c : Coordinator) → Agrees c → Agrees (start now id mode c).0
unfolding start
start-Agrees now id mode c a = elim (Option-cases c.active_run) [
  | inr (r, e) ↦ simp (e, start) a
  | inl e ↦ elim (Bool-cases c.registered) [
    | inl f ↦ simp (e, f, start) (begin-Agrees now id mode c a)
    | inr f ↦ simp (e, f, start) a
  ]
]

-- A run ends: what is left is idle, whatever the ring and the broker are then.
pub clear-Agrees :
    (l : LastRun) (c : Coordinator) → Sound c.broker → Latest c.event_ring → Agrees (clear l c)
clear-Agrees l c s r = idle-Agrees (clear l c) refl refl refl s r

pub close_run-Agrees :
    (now : ℕ) (written : Bool) (r : ActiveRun) (result : ServiceResult) (c : Coordinator)
    → Agrees c
    → Agrees (close_run now written r result c)
unfolding close_run
close_run-Agrees now written r result c a =
    let ring = set_terminal c.event_ring in
    persist-Agrees written _ (
      clear-Agrees _ (record c { event_ring = ring; broker = set_run_terminal now c.broker })
        (Settled-Sound (set_run_terminal-Settled now c.broker a.sound.calm.unclosed))
        (step-Latest Ring.ends c.event_ring a.latest))

pub service_settled-Agrees :
    (now : ℕ) (written : Bool) (id : String) (result : ServiceResult) (c : Coordinator)
    → Agrees c
    → Agrees (service_settled now written id result c)
unfolding service_settled
service_settled-Agrees now written id result c a = elim (Option-cases (active_is id c.active_run)) [
  | inl e ↦ simp (e, service_settled) a
  | inr (r, e) ↦ simp (e, service_settled) (close_run-Agrees now written r result c a)
]

pub service_failed-Agrees :
    (now : ℕ) (written : Bool) (id : String) (validate : Validator) (report : Option String)
    (c : Coordinator)
    → Agrees c
    → Agrees (service_failed now written id validate report c)
unfolding service_failed
service_failed-Agrees now written id validate report c a =
    elim (Option-cases (active_is id c.active_run)) [
      | inl e ↦ simp (e, service_failed) a
      | inr (r, e) ↦
          simp (e, service_failed)
            (service_settled-Agrees now written id _ _
              (push_event-Agrees now _ _ _ (push_event-Agrees now _ _ c a)))
    ]

pub last_run-Agrees :
    (l : LastRun) (c : Coordinator) → Agrees c → Agrees (record c { last_run = some l })
last_run-Agrees l c a = record {
  open_ring = a.open_ring;
  has_signal = a.has_signal;
  raised = a.raised;
  sound = a.sound;
  latest = a.latest;
}

pub repair-Agrees :
    (now : ℕ) (id : String) (written : Bool) (p : Checkpoint) (l : LastRun) (c : Coordinator)
    → Agrees c
    → Agrees (repair now id written p l c).0
unfolding repair
repair-Agrees now id written unregistered l c a = a
repair-Agrees now id written invalid l c a = a
repair-Agrees now id written valid l c a =
    start-Agrees now id "resume" _ (persist-Agrees written _ (last_run-Agrees (repaired l) c a))

pub resume_last-Agrees :
    (now : ℕ) (id : String) (written : Bool) (validate : Validator) (l : LastRun) (c : Coordinator)
    → Agrees c
    → Agrees (resume_last now id written validate l c).0
unfolding resume_last
resume_last-Agrees now id written validate l c a = ground (
  arith,
  a,
  start-Agrees now id "resume" c a,
  repair-Agrees now id written (validate l.run_id) l c a,
)

pub resume-Agrees :
    (now : ℕ) (id : String) (written : Bool) (validate : Validator) (q : Option String)
    (c : Coordinator)
    → Agrees c
    → Agrees (resume now id written validate q c).0
unfolding resume
resume-Agrees now id written validate q c a = elim (Option-cases c.active_run) [
  | inr (r, e) ↦ simp (e, resume) a
  | inl e ↦ elim (Bool-cases (not c.registered)) [
    | inl f ↦ simp (e, f, resume) a
    | inr f ↦ elim (Option-cases (named_run q c.last_run)) [
      | inl g ↦ simp (e, f, g, resume) a
      | inr (l, g) ↦ simp (e, f, g, resume) (resume_last-Agrees now id written validate l c a)
    ]
  ]
]

pub cancel-Agrees :
    (now : ℕ) (id : String) (c : Coordinator) → Agrees c → Agrees (cancel now id c).0
unfolding cancel
cancel-Agrees now id c a = elim (Option-cases c.active_run) [
  | inl e ↦ simp (e, cancel) a
  | inr (r, e) ↦ elim (Bool-cases (str_eq r.run_id id)) [
    | inr f ↦ simp (e, f, cancel) a
    | inl f ↦
        simp (e, f, cancel)
          (push_event-Agrees now _ _ _ (record {
            open_ring =
                (let h : is_none (some r) || not c.event_ring.terminal ≡ true =
                    rw e at a.open_ring in
                  h);
            has_signal = refl;
            raised = λ h. refl;
            sound = a.sound;
            latest = a.latest;
          }))
  ]
]

pub interrupt-Agrees :
    (now : ℕ) (written : Bool) (c : Coordinator) → Agrees c → Agrees (interrupt now written c)
unfolding interrupt
interrupt-Agrees now written c a = elim (Option-cases c.active_run) [
  | inl e ↦ simp (e, interrupt) a
  | inr (r, e) ↦
      let ring = push now "run_interrupted" none c.event_ring in
      simp (e, interrupt)
        (persist-Agrees written _ (
          clear-Agrees (finished now r interruption ring) (record c { event_ring = ring }) a.sound
            (push-Latest now _ _ c.event_ring a.latest)))
]

-- What a write of the last run changes.
pub persist-persisted :
    (written : Bool) (c : Coordinator)
    → persist written c ≡ record c { persisted = (persist written c).persisted }
unfolding persist
persist-persisted written c =
    elim (Bool-cases (c.has_path && not (is_none c.last_run) && written)) [
      | inl e ↦ rw e refl
      | inr e ↦ rw e refl
    ]

pub interrupt-active :
    (now : ℕ) (written : Bool) (c : Coordinator) → (interrupt now written c).active_run ≡ none
unfolding interrupt
interrupt-active now written c = elim (Option-cases c.active_run) [
  | inl e ↦ simp (e, interrupt) refl
  | inr (r, e) ↦ simp (e, interrupt) (ap (λ d. d.active_run) (persist-persisted written _))
]
