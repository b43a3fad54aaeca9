-- ===== src/Remote/Nonces.antt =====
-- src/remote/nonce-store.ts: the table wss_request_nonces, keyed by peer and nonce.
use abmind.Prelude.{
  ℕ, ◌+◌, ◌≤◌, ◌<◌, ◌≡◌, ◌≢◌, refl, inl, inr, String, Bool, true, false, ◌&&◌, none, some, List, [],
  ◌∷◌, ◌++◌, arith, str_eq, ltb, if◌then◌else◌, is_none, Option-cases, All,
}
use text.Mathlib.TextPositions.{eq_refl}
use abmind.Prelude.Table.{
  select, delete, select-delete_kept, select-append_some, select-append_none, select-delete-append,
}

pub record Row : Type 0 where
  pub peer_id : String
  pub nonce : String
  pub seen_at : ℕ
  pub expires_at : ℕ

pub data ClaimResult : Type 0 where
  ok replay store_error : ClaimResult

abbrev pub nonce_ttl_ms : ℕ
nonce_ttl_ms = 60000

abbrev pub key : String → String → Row → Bool
key peer nonce r = str_eq r.peer_id peer && str_eq r.nonce nonce

-- DELETE … WHERE expires_at < ?
pub sweep : ℕ → List Row → List Row
sweep now rows = delete (λ r. ltb r.expires_at now) rows

-- INSERT into a table with PRIMARY KEY (peer_id, nonce).
pub insert : Bool → Row → List Row → List Row × ClaimResult
insert fails r rows =
    if fails
    then (rows, store_error)
    else if is_none (select (key r.peer_id r.nonce) rows)
    then (rows ++ r ∷ [], ok)
    else (rows, replay)

-- `swept` is the clock read of the DELETE, `now` that of the INSERT; a flag says that a statement
-- throws for another reason than the key.
unfoldable pub claim : Bool → Bool → ℕ → ℕ → String → String → List Row → List Row × ClaimResult
unfolding insert sweep
claim sweep_fails insert_fails swept now peer nonce rows =
    if sweep_fails
    then (rows, store_error)
    else insert insert_fails
        (record { peer_id = peer; nonce = nonce; seen_at = now; expires_at = now + nonce_ttl_ms })
        (sweep swept rows)

unfoldable pub prune : Bool → ℕ → List Row → List Row
unfolding sweep
prune fails now rows = if fails then rows else sweep now rows

-- A call of the store, with what the environment supplies.
pub data Call : Type 0 where
  claims : Bool → Bool → ℕ → ℕ → String → String → Call
  prunes : Bool → ℕ → Call

abbrev pub step : Call → List Row → List Row
step (claims sweep_fails insert_fails swept now peer nonce) rows =
    (claim sweep_fails insert_fails swept now peer nonce rows).0
step (prunes fails now) rows = prune fails now rows

abbrev pub run : List Call → List Row → List Row
run [] rows = rows
run (c ∷ cs) rows = run cs (step c rows)

-- The clock at which a call sweeps.
abbrev pub swept_at : Call → ℕ
swept_at (claims sweep_fails insert_fails swept now peer nonce) = swept
swept_at (prunes fails now) = now

insert-kept :
    (q : Row → Bool) (fails : Bool) (n : Row) (rows : List Row) (r : Row)
    → select q rows ≡ some r
    → select q (insert fails n rows).0 ≡ some r
unfolding insert
insert-kept q true n rows r e = e
insert-kept q false n rows r e = elim (Option-cases (select (key n.peer_id n.nonce) rows)) [
  | inl absent ↦ rw (absent) (select-append_some q rows (n ∷ []) r e)
  | inr (s, found) ↦ rw (found) e
]

sweep-kept :
    (q : Row → Bool) (now : ℕ) (rows : List Row) (r : Row)
    → now ≤ r.expires_at
    → select q rows ≡ some r
    → select q (sweep now rows) ≡ some r
unfolding sweep
sweep-kept q now rows r h e =
    select-delete_kept q (λ r. ltb r.expires_at now) rows r e (ground arith)

step-kept :
    (q : Row → Bool) (c : Call) (rows : List Row) (r : Row)
    → swept_at c ≤ r.expires_at
    → select q rows ≡ some r
    → select q (step c rows) ≡ some r
unfolding claim prune
step-kept q (claims true insert_fails swept now peer nonce) rows r h e = e
step-kept q (claims false insert_fails swept now peer nonce) rows r h e =
    insert-kept q insert_fails _ (sweep swept rows) r (sweep-kept q swept rows r h e)
step-kept q (prunes true now) rows r h e = e
step-kept q (prunes false now) rows r h e = sweep-kept q now rows r h e

-- A claimed nonce stays in the table as long as no call sweeps past its expiry.
pub run-kept :
    (q : Row → Bool) (cs : List Call) (rows : List Row) (r : Row)
    → All (λ c. swept_at c ≤ r.expires_at) cs
    → select q rows ≡ some r
    → select q (run cs rows) ≡ some r
run-kept q [] rows r h e = e
run-kept q (c ∷ cs) rows r h e = run-kept q cs (step c rows) r h.1 (step-kept q c rows r h.0 e)

pub claim_ne_ok :
    (sweep_fails insert_fails : Bool) (swept now : ℕ) (peer nonce : String) (rows : List Row)
    (r : Row)
    → swept ≤ r.expires_at
    → select (key peer nonce) rows ≡ some r
    → (claim sweep_fails insert_fails swept now peer nonce rows).1 ≢ ok
unfolding claim insert
claim_ne_ok true insert_fails swept now peer nonce rows r h e = ground arith
claim_ne_ok false true swept now peer nonce rows r h e = ground arith
claim_ne_ok false false swept now peer nonce rows r h e =
    rw (sweep-kept (key peer nonce) swept rows r h e) (ground arith)

abbrev pub entry : ℕ → String → String → Row
entry now peer nonce = record {
  peer_id = peer;
  nonce = nonce;
  seen_at = now;
  expires_at = now + nonce_ttl_ms;
}

-- A claim that succeeds: the nonce was free, and its row is the last.
pub claim_ok :
    (sweep_fails insert_fails : Bool) (swept now : ℕ) (peer nonce : String) (rows : List Row)
    → (claim sweep_fails insert_fails swept now peer nonce rows).1 ≡ ok
    → (select (key peer nonce) (sweep swept rows) ≡ none)
      × ((claim sweep_fails insert_fails swept now peer nonce rows).0
          ≡ sweep swept rows ++ entry now peer nonce ∷ [])
unfolding claim insert
claim_ok sweep_fails insert_fails swept now peer nonce rows h = ground arith

key-entry : (now : ℕ) (peer nonce : String) → key peer nonce (entry now peer nonce) ≡ true
key-entry now peer nonce = rw (eq_refl peer, eq_refl nonce)

pub claim_recorded :
    (sweep_fails insert_fails : Bool) (swept now : ℕ) (peer nonce : String) (rows : List Row)
    → (claim sweep_fails insert_fails swept now peer nonce rows).1 ≡ ok
    → select (key peer nonce) (claim sweep_fails insert_fails swept now peer nonce rows).0
      ≡ some (entry now peer nonce)
claim_recorded sweep_fails insert_fails swept now peer nonce rows h =
    let (free, e) = claim_ok sweep_fails insert_fails swept now peer nonce rows h in
    rw (
      e,
      select-append_none (key peer nonce) (sweep swept rows) (entry now peer nonce ∷ []) free,
      key-entry now peer nonce,
    )

-- Once a sweep passes the expiry of the nonce's only row, the nonce is claimed again.
pub claim_reopened :
    (swept now later : ℕ) (peer nonce : String) (rows : List Row)
    → (claim false false swept now peer nonce rows).1 ≡ ok
    → now + nonce_ttl_ms < later
    → (claim false false later later peer nonce (claim false false swept now peer nonce rows).0).1
      ≡ ok
unfolding claim insert sweep
claim_reopened swept now later peer nonce rows h old = rw (e, gone) refl
  where
    e :
        (claim false false swept now peer nonce rows).0
        ≡ sweep swept rows ++ entry now peer nonce ∷ []
    e = (claim_ok false false swept now peer nonce rows h).1

    gone :
        select (key peer nonce) (sweep later (sweep swept rows ++ entry now peer nonce ∷ [])) ≡ none
    gone =
        select-delete-append (key peer nonce) (λ r. ltb r.expires_at later) (sweep swept rows)
          (entry now peer nonce) (claim_ok false false swept now peer nonce rows h).0 (ground arith)
