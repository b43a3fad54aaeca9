-- ===== src/SleepService/Events/Open.antt =====
-- src/sleep-service/sleep-events.ts: which calls leave the ring open, and what `setTerminal` leaves.
use abmind.Prelude.{ℕ, ◌≡◌, refl, String, Option, true, List, [], ◌∷◌, Bool-cases, inl, inr, arith}
use abmind.SleepService.Events.{
  EventRing, Reader, push, set_terminal, read_after, reader_times_out, wake_each, wake_waiters,
}

wake_each-same :
    (ws : List Reader) (r : EventRing)
    → ((wake_each ws r).terminal ≡ r.terminal)
      × ((wake_each ws r).waiters ≡ r.waiters)
      × ((wake_each ws r).items ≡ r.items)
unfolding wake_each
wake_each-same [] r = (refl, refl, refl)
wake_each-same (w ∷ ws) r = wake_each-same ws _

pub push-terminal :
    (now : ℕ) (kind : String) (detail : Option String) (r : EventRing)
    → (push now kind detail r).terminal ≡ r.terminal
unfolding push wake_waiters
push-terminal now kind detail r = elim (Bool-cases r.terminal) [
  | inl e ↦ simp (e, push) refl
  | inr e ↦ simp (e, push) ((wake_each-same r.waiters _).0)
]

pub read_after-terminal :
    (w : Reader) (wait_ms : ℕ) (r : EventRing) → (read_after w wait_ms r).terminal ≡ r.terminal
unfolding read_after
read_after-terminal w wait_ms r = ground arith

pub reader_times_out-terminal :
    (w : Reader) (r : EventRing) → (reader_times_out w r).terminal ≡ r.terminal
unfolding reader_times_out
reader_times_out-terminal w r = refl

-- The ring is closed, nobody waits at it, and it holds what it held.
pub set_terminal-closed :
    (r : EventRing)
    → ((set_terminal r).terminal ≡ true)
      × ((set_terminal r).waiters ≡ [])
      × ((set_terminal r).items ≡ r.items)
unfolding set_terminal wake_waiters
set_terminal-closed r = wake_each-same r.waiters (record r { terminal = true; waiters = [] })

-- A closed ring takes no more events.
pub push-closed :
    (now : ℕ) (kind : String) (detail : Option String) (r : EventRing)
    → r.terminal ≡ true
    → push now kind detail r ≡ r
unfolding push
push-closed now kind detail r e = simp (e, push) refl
