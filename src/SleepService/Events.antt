-- ===== src/SleepService/Events.antt =====
-- src/sleep-service/sleep-events.ts: `SleepEventRing`. A promise that is resolved is an entry of `log`,
-- newest first, under the ticket of its reader. The callback of a timer is an operation. It looks for
-- a function in `waiters` that is never put there, so it takes no waiter out.
pub mod Open
pub mod Ring
pub mod Gaps
mod Tests
use abmind.Prelude.{
  ℕ, zero, suc, ◌+◌, ◌-◌, String, Bool, true, false, ◌&&◌, ◌||◌, Option, none, List, [], ◌∷◌, ◌++◌,
  ltb, leb, ◌==◌, if◌then◌else◌, filter, take, drop, length,
}

pub record Item : Type 0 where
  pub seq : ℕ
  pub at : ℕ
  pub kind : String
  pub detail : Option String

pub record Reading : Type 0 where
  pub events : List Item
  pub next_seq : ℕ
  pub gap : Bool
  pub terminal : Bool

pub record Reader : Type 0 where
  pub ticket : ℕ
  pub after_seq : ℕ
  pub limit : ℕ

pub record EventRing : Type 0 where
  pub items : List Item
  pub next_seq : ℕ
  pub terminal : Bool
  pub waiters : List Reader
  pub log : List (ℕ × Reading)

abbrev pub max_events : ℕ
max_events = 200

abbrev pub empty_ring : EventRing
empty_ring = record { items = []; next_seq = 1; terminal = false; waiters = []; log = [] }

abbrev pub is_empty : List Item → Bool
is_empty [] = true
is_empty (x ∷ xs) = false

abbrev resolve : ℕ → Reading → EventRing → EventRing
resolve t res r = record r { log = (t, res) ∷ r.log }

unfoldable pub wake_each : List Reader → EventRing → EventRing
wake_each [] r = r
wake_each (w ∷ ws) r = wake_each ws (
    resolve w.ticket
      (record {
        events = take w.limit r.items;
        next_seq = r.next_seq;
        gap = false;
        terminal = r.terminal;
      })
      r)

unfoldable pub wake_waiters : EventRing → EventRing
wake_waiters r = wake_each r.waiters (record r { waiters = [] })

-- The items of a full ring, less the oldest.
unfoldable pub trim : List Item → List Item
trim items = if ltb max_events (length items) then drop 1 items else items

unfoldable pub push : ℕ → String → Option String → EventRing → EventRing
push now kind detail r =
    if r.terminal
    then r
    else wake_waiters (record r {
      items =
          trim
            (r.items ++ record { seq = r.next_seq; at = now; kind = kind; detail = detail } ∷ []);
      next_seq = r.next_seq + 1;
    })

unfoldable pub set_terminal : EventRing → EventRing
set_terminal r = wake_waiters (record r { terminal = true })

abbrev pub results : ℕ → EventRing → List Item
results after r = filter (λ e. ltb after e.seq) r.items

-- results.length > 0 && results[0].seq > afterSeq + 1
abbrev pub starts_late : ℕ → List Item → Bool
starts_late after [] = false
starts_late after (x ∷ xs) = ltb (after + 1) x.seq

pub read_after : Reader → ℕ → EventRing → EventRing
read_after w wait_ms r =
    let found = results w.after_seq r in
    if not_empty found || r.terminal
    then resolve w.ticket
        (record {
          events = take w.limit found;
          next_seq = r.next_seq;
          gap = starts_late w.after_seq found || ltb 0 w.after_seq && is_empty found;
          terminal = r.terminal;
        })
        r
    else if wait_ms == 0
    then resolve w.ticket
        (record { events = []; next_seq = r.next_seq; gap = false; terminal = r.terminal }) r
    else record r { waiters = r.waiters ++ w ∷ [] }
  where
    not_empty : List Item → Bool
    not_empty [] = false
    not_empty (x ∷ xs) = true

-- The timer of a reader.
pub reader_times_out : Reader → EventRing → EventRing
reader_times_out w r =
    let later = results w.after_seq r in
    resolve w.ticket
      (record {
        events = take w.limit later;
        next_seq = r.next_seq;
        gap = ltb 0 w.after_seq && starts_late w.after_seq later;
        terminal = r.terminal;
      })
      r
