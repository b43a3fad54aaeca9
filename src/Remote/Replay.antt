-- ===== src/Remote/Replay.antt =====
-- src/remote/signed-wss-endpoint.ts, `handleRequest`: the check of a frame's signature and the claim
-- of its nonce, one after the other.
use abmind.Prelude.{
  ℕ, ◌+◌, ◌/◌, ◌%◌, ◌≤◌, ◌<◌, ◌≡◌, ◌≢◌, refl, String, Bool, false, none, some, List, arith, All,
  All-map,
}
use native.Mathlib.Nat.{le_trans}
use abmind.Remote.Auth.{
  AuthFields, stale_lem, stale_false, verify_again, not_stale, verify_request_signature, number,
}
use abmind.Remote.Nonces.{
  Row, ClaimResult, ok, replay, store_error, key, claim, Call, run, swept_at, run-kept, claim_ne_ok,
  claim_recorded, claim_reopened, entry, nonce_ttl_ms,
}

pub data Outcome : Type 0 where
  auth_failed nonce_rejected accepted : Outcome

-- The clock reads of one frame: `verifyRequestSignature`, then DELETE and INSERT of `claim`.
pub record Clock : Type 0 where
  pub checked : ℕ
  pub swept : ℕ
  pub inserted : ℕ

-- All three reads at one instant.
abbrev pub at : ℕ → Clock
at now = record { checked = now; swept = now; inserted = now }

abbrev claimed : List Row × ClaimResult → List Row × Outcome
claimed (rows, ok) = (rows, accepted)
claimed (rows, replay) = (rows, nonce_rejected)
claimed (rows, store_error) = (rows, nonce_rejected)

module _ (sha256 : String → String) (verify : String → String → String → Bool) where
  unfoldable pub authorize :
      Bool → Bool → Clock → AuthFields → String → String → String → List Row → List Row × Outcome
  authorize sweep_fails insert_fails t auth frame_id body verify_key rows =
      elim (verify_request_signature sha256 verify t.checked auth frame_id body verify_key) [
        | some reason ↦ (rows, auth_failed)
        | none ↦
            claimed (claim sweep_fails insert_fails t.swept t.inserted auth.peer_id auth.nonce rows)
      ]

  authorize_accepted :
      (sweep_fails insert_fails : Bool) (t : Clock) (auth : AuthFields)
      (frame_id body verify_key : String) (rows : List Row)
      → (authorize sweep_fails insert_fails t auth frame_id body verify_key rows).1 ≡ accepted
      → (verify_request_signature sha256 verify t.checked auth frame_id body verify_key ≡ none)
        × ((claim sweep_fails insert_fails t.swept t.inserted auth.peer_id auth.nonce rows).1 ≡ ok)
        × ((authorize sweep_fails insert_fails t auth frame_id body verify_key rows).0
            ≡ (claim sweep_fails insert_fails t.swept t.inserted auth.peer_id auth.nonce rows).0)
  unfolding authorize
  authorize_accepted sweep_fails insert_fails t auth frame_id body verify_key rows h = ground arith

  accepted_of_ok :
      (sweep_fails insert_fails : Bool) (t : Clock) (auth : AuthFields)
      (frame_id body verify_key : String) (rows : List Row)
      → verify_request_signature sha256 verify t.checked auth frame_id body verify_key ≡ none
      → (claim sweep_fails insert_fails t.swept t.inserted auth.peer_id auth.nonce rows).1 ≡ ok
      → (authorize sweep_fails insert_fails t auth frame_id body verify_key rows).1 ≡ accepted
  unfolding authorize
  accepted_of_ok sweep_fails insert_fails t auth frame_id body verify_key rows v c = ground arith

  -- No replay: a frame whose sender's clock is at most 29 seconds ahead of the server's, once accepted,
  -- is never accepted again, after any further claims and sweeps of the nonce table, if the clock
  -- does not go back and the replay's check and sweep read it in the same second.
  pub authorize-replay :
      (sweep_fails insert_fails sweep_fails' insert_fails' : Bool) (t t' : Clock)
      (auth : AuthFields) (frame_id body verify_key : String) (rows : List Row) (cs : List Call)
      → (authorize sweep_fails insert_fails t auth frame_id body verify_key rows).1 ≡ accepted
      → number auth.ts ≤ t.checked / 1000 + 29
      → t.checked ≤ t.inserted
      → t'.swept / 1000 ≡ t'.checked / 1000
      → All (λ c. swept_at c ≤ t'.swept) cs
      → (authorize sweep_fails' insert_fails' t' auth frame_id body verify_key
          (run cs (authorize sweep_fails insert_fails t auth frame_id body verify_key rows).0)).1
        ≢ accepted
  authorize-replay sweep_fails insert_fails sweep_fails' insert_fails' t t' auth frame_id body
        verify_key rows cs h ahead order same sweeps h' =
      let (v, c, e) =
        authorize_accepted sweep_fails insert_fails t auth frame_id body verify_key rows h in
      let (v', c', _) =
        authorize_accepted sweep_fails' insert_fails' t' auth frame_id body verify_key _ h' in
      let recent : t'.swept ≤ t.inserted + nonce_ttl_ms = omega (
        arith,
        stale_lem (t'.checked / 1000) (number auth.ts)
            (not_stale sha256 verify t'.checked auth frame_id body verify_key v'),
      ) in
      claim_ne_ok sweep_fails' insert_fails' t'.swept t'.inserted auth.peer_id auth.nonce _
        (entry t.inserted auth.peer_id auth.nonce) recent
        (run-kept (key auth.peer_id auth.nonce) cs _ (entry t.inserted auth.peer_id auth.nonce)
          (All-map (λ c le. le_trans le recent) cs sweeps)
          (rw e (
            claim_recorded sweep_fails insert_fails t.swept t.inserted auth.peer_id auth.nonce rows
              c)))
        c'

  -- The gap: a frame stamped 30 seconds ahead of the server's second is accepted a second time
  -- 60001 milliseconds later, when its nonce has been swept and its timestamp is still in the window.
  pub authorize-replay_accepted :
      (now : ℕ) (auth : AuthFields) (frame_id body verify_key : String) (rows : List Row)
      → (authorize false false (at now) auth frame_id body verify_key rows).1 ≡ accepted
      → number auth.ts ≡ now / 1000 + 30
      → now % 1000 < 999
      → (authorize false false
          (at (now + 60001))
          auth
          frame_id
          body
          verify_key
          (authorize false false (at now) auth frame_id body verify_key rows).0).1
        ≡ accepted
  authorize-replay_accepted now auth frame_id body verify_key rows h ahead early =
      let (v, c, e) =
        authorize_accepted false false (at now) auth frame_id body verify_key rows h in
      let again : verify_request_signature sha256 verify (now + 60001) auth frame_id body verify_key
          ≡ none =
        rw
          (
            verify_again sha256 verify now (now + 60001) auth frame_id body verify_key v,
            stale_false ((now + 60001) / 1000) (number auth.ts) (omega arith) (omega arith),
          )
          refl in
      accepted_of_ok false false (at (now + 60001)) auth frame_id body verify_key _ again
        (rw e (claim_reopened now now (now + 60001) auth.peer_id auth.nonce rows c (omega arith)))
