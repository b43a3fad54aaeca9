-- ===== src/Remote/Transport/Progress.antt =====
-- src/remote/signed-wss-transport.ts: the pump sends what is due.
use abmind.Prelude.{ℕ, ◌<◌, ◌≤◌, ◌⊎◌, All, Among, ◌≡◌, true, some, ◌∷◌}
use abmind.Remote.Outbox.{Entry, get, eligible, timeout, max_attempts, to_in_flight, to_terminal}
use abmind.Remote.Transport.{Transport}

-- The entry goes out once more and is in flight, or it has had its attempts and is settled as terminal.
abbrev pub Ends : ℕ → Entry → Transport → Transport → Type 0
Ends now e t t' =
    ((e.attempts < max_attempts)
      × (t'.wire ≡ record { frame_id = e.id; generation = t.route.generation } ∷ t.wire)
      × (get e.id t'.outbox ≡ some (to_in_flight now e)))
    ⊎ ((max_attempts ≤ e.attempts) × (get e.id t'.outbox ≡ some (to_terminal timeout e)))

-- The entry is the oldest that is due.
pub record Served (now : ℕ) (e : Entry) (t t' : Transport) : Type 0 where
  pub due : eligible now e ≡ true
  pub held : Among e t.outbox.entries
  pub oldest : All (λ x. eligible now x ≡ true → e.created_at ≤ x.created_at) t.outbox.entries
  pub outcome : Ends now e t t'
