-- ===== src/Remote/Transport/Limits.antt =====
-- src/remote/signed-wss-transport.ts: how often a frame goes out, and how many are in flight.
use abmind.Prelude.{ℕ, ◌≤◌, String, List, length}
use abmind.Prelude.Table.{count}
use abmind.Remote.Outbox.{Entry, max_attempts}
use abmind.Remote.Outbox.Credit.{Credits}
use abmind.Remote.Transport.{Sent, Transport, is_frame}
use abmind.Remote.Transport.Moves.{Moves}

-- The frame has been sent as often as its entry accounts for and five times at most; one frame at most is
-- in flight.
pub record Limited (i : String) (n : ℕ) (es : List Entry) (ss : List Sent) : Type 0 where
  pub credited : Credits i n es
  pub at_most : n ≤ max_attempts
  pub one : length ss ≤ 1

abbrev pub IsLimited : String → Transport → Type 0
IsLimited i t = Limited i (count (is_frame i) t.wire) t.outbox.entries t.sent_on_gen
