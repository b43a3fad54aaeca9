-- ===== src/Remote/Outbox/Terminal.antt =====
-- src/remote/request-outbox.ts: an entry whose outcome is unknown, over the calls.
use abmind.Prelude.{
  ℕ, ◌≡◌, ◌≢◌, refl, ◌∙◌, leb, ltb, inl, inr, String, Bool, true, false, ◌||◌, some, List, [], ◌∷◌,
  arith, length, Bool-cases, Option-cases, All, eq_iff,
}
use abmind.Prelude.Table.{select, select-append_some}
use abmind.Remote.Outbox.{
  Entry, Outbox, Disk, RetryFailure, is_terminal, is_in_flight, has_id, commit, modify, append, get,
  mark_in_flight, mark_retry_wait, mark_terminal_unknown, max_entries, max_entry_bytes,
  to_in_flight, undo_in_flight, to_retry_wait, to_terminal, undo_terminal,
}
use abmind.Remote.Outbox.Delivery.{
  Call, appends, marks_in_flight, marks_retry_wait, marks_terminal, acknowledges, prunes, apply,
  run, commit-true, commit-false,
}

-- Calls that may remove an entry.
abbrev pub removes : Call → Bool
removes (acknowledges i) = true
removes (prunes now) = true
removes _ = false

get-modify_other :
    (i j : String) (f : Entry → Entry)
    → ((e : Entry) → (f e).id ≡ e.id)
    → i ≢ j
    → (es : List Entry) → select (has_id i) (modify j f es) ≡ select (has_id i) es
unfolding modify
get-modify_other i j f same ne [] = refl
get-modify_other i j f same ne (e ∷ es) = elim (Bool-cases (has_id j e)) [
  | inl hit ↦
      ground
        (arith, hit, same e, eq_iff e.id i, eq_iff e.id j, eq_iff (f e).id i, λ (p : i ≡ j). ne p)
  | inr miss ↦ rw miss (ground (arith, get-modify_other i j f same ne es))
]

module _ (i : String) (e : Entry) (ended : is_terminal e.state ≡ true) where
  -- A method that changes one entry by its id leaves a terminal entry alone.
  commit-get :
      (d : Disk) (o : Outbox) (next restored : List Entry)
      → select (has_id i) next ≡ some e
      → select (has_id i) restored ≡ some e
      → get i (commit d o next restored).0 ≡ some e
  unfolding get
  commit-get d o next restored n r = elim (Bool-cases (commit d o next restored).1) [
    | inl done ↦ rw ((commit-true d o next restored done).0) n
    | inr failed ↦ rw ((commit-false d o next restored failed).0) r
  ]

  live_ne :
      (j : String) (o : Outbox) (r : Entry)
      → get i o ≡ some e
      → get j o ≡ some r
      → is_terminal r.state ≡ false
      → i ≢ j
  live_ne j o r h k live p = ground (arith, ended, rw p at h)

  modify-get :
      (d : Disk) (j : String) (o : Outbox) (r : Entry) (f g : Entry → Entry)
      → ((x : Entry) → (f x).id ≡ x.id)
      → ((x : Entry) → (g x).id ≡ x.id)
      → get i o ≡ some e
      → get j o ≡ some r
      → is_terminal r.state ≡ false
      → get i (commit d o (modify j f o.entries) (modify j g o.entries)).0 ≡ some e
  modify-get d j o r f g fs gs h k live =
      let ne = live_ne j o r h k live in
      commit-get d o _ _ (get-modify_other i j f fs ne o.entries ∙ unfold get in h)
        (get-modify_other i j g gs ne o.entries ∙ unfold get in h)

  mark_in_flight-get :
      (d : Disk) (now : ℕ) (j : String) (o : Outbox)
      → get i o ≡ some e
      → get i (mark_in_flight d now j o).0 ≡ some e
  unfolding mark_in_flight
  mark_in_flight-get d now j o h = elim (Option-cases (get j o)) [
    | inl k ↦ rw (k, mark_in_flight) h
    | inr (r, k) ↦ elim (Bool-cases (is_in_flight r.state || is_terminal r.state)) [
      | inl stop ↦ rw (k, mark_in_flight, stop) h
      | inr go ↦
          rw (k, mark_in_flight, go)
            (modify-get d j o r (to_in_flight now) undo_in_flight (λ x. refl) (λ x. refl) h k
              (ground arith))
    ]
  ]

  mark_terminal_unknown-get :
      (d : Disk) (j : String) (failure : RetryFailure) (o : Outbox)
      → get i o ≡ some e
      → get i (mark_terminal_unknown d j failure o).0 ≡ some e
  unfolding mark_terminal_unknown
  mark_terminal_unknown-get d j failure o h = elim (Option-cases (get j o)) [
    | inl k ↦ rw (k, mark_terminal_unknown) h
    | inr (r, k) ↦ elim (Bool-cases (is_terminal r.state)) [
      | inl stop ↦ rw (k, mark_terminal_unknown, stop) h
      | inr go ↦
          rw (k, mark_terminal_unknown, go)
            (modify-get d j o r (to_terminal failure) undo_terminal (λ x. refl) (λ x. refl) h k go)
    ]
  ]

  mark_retry_wait-get :
      (d : Disk) (now : ℕ) (j : String) (failure : RetryFailure) (next : ℕ) (o : Outbox)
      → get i o ≡ some e
      → get i (mark_retry_wait d now j failure next o).0 ≡ some e
  unfolding mark_retry_wait
  mark_retry_wait-get d now j failure next o h = elim (Option-cases (get j o)) [
    | inl k ↦ rw (k, mark_retry_wait) h
    | inr (r, k) ↦ elim (Bool-cases (is_terminal r.state)) [
      | inl stop ↦ rw (k, mark_retry_wait, stop) h
      | inr go ↦
          rw (k, mark_retry_wait, go)
            (commit-get d o _ _
              (get-modify_other i j (to_retry_wait failure now next) (λ x. refl)
                  (live_ne j o r h k go) o.entries
                ∙ unfold get in h)
              (unfold get in h))
    ]
  ]

  append-get :
      (d : Disk) (x : Entry) (o : Outbox) → get i o ≡ some e → get i (append d x o).0 ≡ some e
  unfolding append
  append-get d x o h = elim (Bool-cases (o.quarantined || o.degraded)) [
    | inl stop ↦ rw stop h
    | inr go ↦ elim (Bool-cases (leb max_entries (length o.entries))) [
      | inl full ↦ rw (go, full) h
      | inr room ↦ elim (Bool-cases (ltb max_entry_bytes (d.entry_size x))) [
        | inl big ↦ rw (go, room, big) h
        | inr fits ↦
            rw (go, room, fits)
              (commit-get d o _ _
                (select-append_some (has_id i) o.entries (x ∷ []) e (unfold get in h))
                (unfold get in h))
      ]
    ]
  ]

  apply-get :
      (d : Disk) (c : Call) (o : Outbox)
      → removes c ≡ false
      → get i o ≡ some e
      → get i (apply d c o).0 ≡ some e
  apply-get d (appends x) o w h = append-get d x o h
  apply-get d (marks_in_flight now j) o w h = mark_in_flight-get d now j o h
  apply-get d (marks_retry_wait now j failure next) o w h =
      mark_retry_wait-get d now j failure next o h
  apply-get d (marks_terminal j failure) o w h = mark_terminal_unknown-get d j failure o h
  apply-get d (acknowledges j) o w h = cc
  apply-get d (prunes now) o w h = cc

  -- An entry in `terminal_unknown` is never sent again: no sequence of calls but `acknowledge` and
  -- `pruneTerminalUnknown`, on any disk, changes it or its state.
  pub run-terminal :
      (cs : List (Disk × Call)) (o : Outbox)
      → All (λ c. removes c.1 ≡ false) cs
      → get i o ≡ some e
      → get i (run cs o) ≡ some e
  run-terminal [] o w h = h
  run-terminal ((d, c) ∷ cs) o w h = run-terminal cs (apply d c o).0 w.1 (apply-get d c o w.0 h)
