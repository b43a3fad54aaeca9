-- ===== src/Remote/Tests.antt =====
-- Runs of the remote surface of src/remote, and its theorems at concrete inputs.
use abmind.Prelude.{Bool, ◌+◌, ◌≡◌, ◌≢◌, refl, String, true, false, none, some, [], ◌∷◌, arith}
use abmind.Remote.Auth.{AuthFields, verify_request_signature, verify_hello, stale_ts, invalid_nonce}
use abmind.Remote.Nonces.{claim, prunes, run}
use abmind.Remote.Replay.{accepted, at, authorize, authorize-replay, authorize-replay_accepted}

abbrev digest : String → String
digest s = s

abbrev valid : String → String → String → Bool
valid key message sig = true

abbrev auth : AuthFields
auth = record {
  peer_id = "peer";
  ts = "130";
  nonce = "0123456789abcdef0123456789abcdef";
  sig = "AAA=";
}

abbrev near : AuthFields
near = record auth { ts = "129" }

verify_in_window : verify_request_signature digest valid 100000 auth "f" "{}" "k" ≡ none
unfolding verify_request_signature
verify_in_window = refl

verify_too_old : verify_request_signature digest valid 161000 auth "f" "{}" "k" ≡ some stale_ts
unfolding verify_request_signature
verify_too_old = refl

verify_short_nonce :
    verify_request_signature digest valid 100000 (record auth { nonce = "0123" }) "f" "{}" "k"
    ≡ some invalid_nonce
unfolding verify_request_signature
verify_short_nonce = refl

hello_in_window : verify_hello digest valid 100000 "peer" "c" "h" "100" "sig" "k" ≡ none
unfolding verify_hello
hello_in_window = refl

authorize-replay_example :
    (authorize digest valid false false (at 150000) near "f" "{}" "k" (
      run
        (prunes false 120000 ∷ [])
        (authorize digest valid false false (at 100000) near "f" "{}" "k" []).0)).1
    ≢ accepted
unfolding authorize verify_request_signature claim
authorize-replay_example =
    authorize-replay digest valid false false false false (at 100000) (at 150000) near "f" "{}" "k"
      [] (prunes false 120000 ∷ []) refl (omega arith) (omega arith) refl (omega arith, tt)

authorize-replay_accepted_example :
    (authorize digest valid false false
      (at (100000 + 60001))
      auth
      "f"
      "{}"
      "k"
      (authorize digest valid false false (at 100000) auth "f" "{}" "k" []).0).1
    ≡ accepted
unfolding authorize verify_request_signature claim
authorize-replay_accepted_example =
    authorize-replay_accepted digest valid 100000 auth "f" "{}" "k" [] refl refl (omega arith)
