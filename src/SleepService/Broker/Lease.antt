-- ===== src/SleepService/Broker/Lease.antt =====
-- src/sleep-service/runtime-broker.ts: the end of a lease and of a run, and the parked callers of
-- `next`.
use abmind.Prelude.{
  ℕ, ◌≡◌, refl, String, Bool, true, false, ◌&&◌, Option, none, some, List, [], ◌∷◌, ◌++◌, arith,
  leb, if◌then◌else◌, Bool-cases, Option-cases, inl, inr, ◌∙◌,
}
use text.Mathlib.TextPositions.{eq_refl}
use abmind.SleepService.Runtime.{
  Request, Waiter, Broker, Settlement, refresh_lease, lease_is, is_some, rejected, run_ended,
}
use abmind.SleepService.Broker.{
  detach, settle, settle_lost, expire_lease, expire_any, without_lease, settle_revoking, open_lease,
  close_lease, set_run_terminal, end_pending, remove_waiter,
}
use abmind.SleepService.Broker.Calm.{
  Calm, Woken, Settled, says_closed, wake_next-Settled, wake_next-same_lease, detach-pending,
  detach-lease, detach-log, Vacant-Calm, expire_lease-Settled,
}

-- Whether every parked caller of `next` holds the lease.
abbrev pub all_hold : Option String → List Waiter → Bool
all_hold o [] = true
all_hold o (w ∷ ws) = lease_is o w.lease && all_hold o ws

-- The broker is calm, and whoever waits holds its lease.
pub record Sound (b : Broker) : Type 0 where
  pub calm : Calm b
  pub parked : all_hold b.lease_id b.waiters ≡ true

pub Settled-Sound : {b : Broker} → Settled b → Sound b
Settled-Sound s = record { calm = s.calm; parked = rw s.alone refl }

pub Woken-Sound : {b b' : Broker} → Woken b b' → Sound b → Sound b'
Woken-Sound w s = record {
  calm = w.calm s.calm;
  parked = rw (w.same_lease, w.same_waiters) s.parked;
}

pub all_hold-append :
    (o : Option String) (ws : List Waiter) (w : Waiter)
    → all_hold o ws ≡ true
    → lease_is o w.lease ≡ true
    → all_hold o (ws ++ w ∷ []) ≡ true
all_hold-append o [] w h e = rw e refl
all_hold-append o (v ∷ ws) w h e = ground (arith, all_hold-append o ws w)

pub all_hold-remove :
    (o : Option String) (t : ℕ) (ws : List Waiter)
    → all_hold o ws ≡ true
    → all_hold o (remove_waiter t ws) ≡ true
unfolding remove_waiter
all_hold-remove o t [] h = refl
all_hold-remove o t (v ∷ ws) h = ground (arith, all_hold-remove o t ws)

all_hold-none : (ws : List Waiter) → all_hold none ws ≡ true → ws ≡ []
all_hold-none [] h = refl
all_hold-none (w ∷ ws) h = ground arith

is_some-false : (o : Option String) → is_some o ≡ false → o ≡ none
is_some-false none e = refl
is_some-false (some l) e = ground arith

settle-same_lease :
    (now : ℕ) (r : Request) (s : Settlement) (b : Broker) → (settle now r s b).lease_id ≡ b.lease_id
unfolding settle refresh_lease
settle-same_lease now r s b = elim (Bool-cases (is_some (detach r s b).lease_id)) [
  | inl e ↦
      simp (e, settle)
        (wake_next-same_lease now (refresh_lease now (detach r s b)) ∙ detach-lease r s b)
  | inr e ↦ simp (e, settle) (wake_next-same_lease now (detach r s b) ∙ detach-lease r s b)
]

settle_lost-same_lease :
    (now : ℕ) (o : Option Request) (b : Broker) → (settle_lost now o b).lease_id ≡ b.lease_id
unfolding settle_lost
settle_lost-same_lease now none b = refl
settle_lost-same_lease now (some r) b = settle-same_lease now r _ b

expire_lease-unleased :
    (now : ℕ) (l : String) (b : Broker)
    → lease_is b.lease_id l ≡ true
    → (expire_lease now l b).lease_id ≡ none
unfolding expire_lease
expire_lease-unleased now l b e =
    simp (e, expire_lease)
      (wake_next-same_lease now _ ∙ settle_lost-same_lease now b.pending (without_lease b))

held : (b : Broker) (l : String) → b.lease_id ≡ some l → lease_is b.lease_id l ≡ true
held b l e = rw e (eq_refl l)

expire_any-unleased : (now : ℕ) (b : Broker) → (expire_any now b).lease_id ≡ none
unfolding expire_any
expire_any-unleased now b = elim (Option-cases b.lease_id) [
  | inl e ↦ simp (e, expire_any) refl
  | inr (l, e) ↦ simp (e, expire_any) (expire_lease-unleased now l b (held b l e))
]

expire_any-Calm :
    (now : ℕ) (b : Broker) → b.pending ≡ none → says_closed b.log ≡ false → Calm (expire_any now b)
unfolding expire_any
expire_any-Calm now b p u = elim (Option-cases b.lease_id) [
  | inl e ↦ simp (e, expire_any) (Vacant-Calm b (record { unleased = e; idle = p }) u)
  | inr (l, e) ↦ simp (e, expire_any) ((expire_lease-Settled now l b (held b l e) u).calm)
]

pub expire_any-Sound : (now : ℕ) (b : Broker) → Sound b → Sound (expire_any now b)
unfolding expire_any
expire_any-Sound now b s = elim (Option-cases b.lease_id) [
  | inl e ↦ simp (e, expire_any) s
  | inr (l, e) ↦
      simp (e, expire_any)
        (Settled-Sound (expire_lease-Settled now l b (held b l e) s.calm.unclosed))
]

end_pending-Calm :
    (now : ℕ) (o : Option Request) (b : Broker)
    → b.pending ≡ o
    → says_closed b.log ≡ false
    → Calm (end_pending now o b)
unfolding end_pending settle_revoking
end_pending-Calm now none b e u = expire_any-Calm now b e u
end_pending-Calm now (some r) b e u =
    let p = detach-pending r (rejected run_ended) b in
    let q = detach-log r (rejected run_ended) b ∙ u in
    elim (Bool-cases (is_some (detach r (rejected run_ended) b).lease_id)) [
      | inl f ↦ rw f (expire_any-Calm now _ p q)
      | inr f ↦ rw f (
          (wake_next-Settled now _
            (Vacant-Calm _ (record { unleased = is_some-false _ f; idle = p }) q)).calm)
    ]

end_pending-unleased :
    (now : ℕ) (o : Option Request) (b : Broker) → (end_pending now o b).lease_id ≡ none
unfolding end_pending settle_revoking
end_pending-unleased now none b = expire_any-unleased now b
end_pending-unleased now (some r) b =
    elim (Bool-cases (is_some (detach r (rejected run_ended) b).lease_id)) [
      | inl f ↦ rw f (expire_any-unleased now _)
      | inr f ↦ rw f (wake_next-same_lease now _ ∙ is_some-false _ f)
    ]

pub set_run_terminal-Settled :
    (now : ℕ) (b : Broker) → says_closed b.log ≡ false → Settled (set_run_terminal now b)
unfolding set_run_terminal
set_run_terminal-Settled now b u =
    wake_next-Settled now _
      (end_pending-Calm now b.pending (record b { run_terminal = true }) refl u)

set_run_terminal-unleased : (now : ℕ) (b : Broker) → (set_run_terminal now b).lease_id ≡ none
unfolding set_run_terminal
set_run_terminal-unleased now b =
    wake_next-same_lease now _
    ∙ end_pending-unleased now b.pending (record b { run_terminal = true })

vacant_pending : (b : Broker) → Calm b → b.lease_id ≡ none → b.pending ≡ none
vacant_pending b c e = elim (Option-cases b.pending) [
  | inl f ↦ f
  | inr (r, f) ↦ ground (arith, c.served, e, f)
]

-- `setRunTerminal` ends everything: from any broker that has told nobody `closed`, it leaves no lease,
-- no pending completion and nobody waiting.
pub set_run_terminal-empty :
    (now : ℕ) (b : Broker)
    → says_closed b.log ≡ false
    → ((set_run_terminal now b).lease_id ≡ none)
      × ((set_run_terminal now b).pending ≡ none)
      × ((set_run_terminal now b).waiters ≡ [])
set_run_terminal-empty now b u =
    let s = set_run_terminal-Settled now b u in
    let e = set_run_terminal-unleased now b in
    (e, vacant_pending (set_run_terminal now b) s.calm e, s.alone)

opened-Sound :
    (now : ℕ) (l p : String) (c : Bool) (b : Broker)
    → Sound b
    → is_some b.lease_id ≡ false
    → Sound (record (refresh_lease now (record b { lease_id = some l })) {
      provider = some p;
      proposal_capability = c;
      run_terminal = false;
    })
unfolding refresh_lease
opened-Sound now l p c b s e =
    let n = is_some-false b.lease_id e in
    let v = vacant_pending b s.calm n in
    let h : all_hold none b.waiters ≡ true = rw⁻¹ n s.parked in
    record {
      calm = record {
        served = rw v refl;
        fenced = rw v refl;
        ended = refl;
        unclosed = s.calm.unclosed;
      };
      parked = rw (all_hold-none b.waiters h) refl;
    }

pub open_lease-Sound :
    (now : ℕ) (l p : String) (c : Bool) (b : Broker) → Sound b → Sound (open_lease now l p c b).0
unfolding open_lease
open_lease-Sound now l p c b s =
    let first : Sound (if leb b.lease_expires_at now then expire_any now b else b) =
      elim (Bool-cases (leb b.lease_expires_at now)) [
        | inl e ↦ rw e (expire_any-Sound now b s)
        | inr e ↦ rw e s
      ] in
    elim (Bool-cases
      (is_some (if leb b.lease_expires_at now then expire_any now b else b).lease_id)) [
        | inl e ↦ rw e first
        | inr e ↦ rw e (opened-Sound now l p c _ first e)
      ]

pub close_lease-Sound :
    (now : ℕ) (l : String) (b : Broker) → Sound b → Sound (close_lease now l b).0
unfolding close_lease
close_lease-Sound now l b s = elim (Bool-cases (lease_is b.lease_id l)) [
  | inl e ↦ rw e (Settled-Sound (expire_lease-Settled now l b e s.calm.unclosed))
  | inr e ↦ rw e s
]

-- With no lease there is nothing to close.
pub close_lease-none :
    (now : ℕ) (l : String) (b : Broker) → b.lease_id ≡ none → (close_lease now l b).0 ≡ b
unfolding close_lease
close_lease-none now l b e = simp (e, close_lease) refl
