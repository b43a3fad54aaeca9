-- ===== src/Remote/Transport/Serving.antt =====
-- src/remote/signed-wss-transport.ts: every caller gets one answer.
use abmind.Prelude.{
  ℕ, ◌+◌, ◌≡◌, refl, ap, String, Bool, none, some, List, [], ◌∷◌, map, arith, if◌then◌else◌, inl,
  inr, Bool-cases,
}
use abmind.Prelude.Table.{select, count, count-append}
use abmind.Remote.Transport.{
  Options, Pending, Transport, Outcome, waits_for, put, take_out, reply_to, close,
}
use abmind.Remote.Transport.Runs.{Event, step, run}
use abmind.Remote.Transport.Moves.{
  Move, stays, calls, declines, gates, releases, sends, refuses, admits, answers_one, loses_one,
  answers_all, Moves, done, and_then, close-Moves,
}
use abmind.Remote.Transport.Handlers.{Holds, step-Moves}

abbrev pub HoldsRun : Options → List Event → Transport → Type 0
HoldsRun o [] t = Unit
HoldsRun o (e ∷ es) t = Holds e t × HoldsRun o es (step o e t)

module _ (q : String → Bool) where
  -- The requests of the kind q that were made, those that were answered, and those whose caller waits.
  abbrev pub made : Transport → ℕ
  made t = count q t.asked

  abbrev pub answers_given : Transport → ℕ
  answers_given t = count (λ r. q r.frame_id) t.replies

  abbrev pub waiting : Transport → ℕ
  waiting t = count (λ p. q p.frame_id) t.pending

  abbrev pub IsBalanced : Transport → Type 0
  IsBalanced t = made t ≡ answers_given t + waiting t

  count-put :
      (p : Pending) (ps : List Pending)
      → select (waits_for p.frame_id) ps ≡ none
      → count (λ p. q p.frame_id) (put p ps)
        ≡ count (λ p. q p.frame_id) ps + (if q p.frame_id then 1 else 0)
  unfolding put
  count-put p [] h = ground arith
  count-put p (x ∷ xs) h = ground (arith, count-put p xs)

  count-take_out :
      (i : String) (ps : List Pending) (p : Pending)
      → select (waits_for i) ps ≡ some p
      → count (λ p. q p.frame_id) ps
        ≡ count (λ p. q p.frame_id) (take_out i ps) + (if q p.frame_id then 1 else 0)
  unfolding take_out
  count-take_out i [] p h = absurd (ground (arith, h))
  count-take_out i (x ∷ xs) p h = elim (Bool-cases (waits_for i x)) [
    | inl hit ↦
        let f : some x ≡ some p = rw hit at h in
        let same : x.frame_id ≡ p.frame_id =
          ap (λ o. elim o [ none ↦ x.frame_id | some y ↦ y.frame_id ]) f in
        rw (hit, same) (ground arith)
    | inr miss ↦ rw miss (ground (arith, count-take_out i xs p (rw miss at h)))
  ]

  count-answers :
      (outcome : Outcome) (ps : List Pending)
      → count (λ r. q r.frame_id) (map (reply_to outcome) ps) ≡ count (λ p. q p.frame_id) ps
  count-answers outcome [] = refl
  count-answers outcome (p ∷ ps) = ground (arith, count-answers outcome ps)

  move-IsBalanced : {P : Type 0} {t t' : Transport} → P → Move P t t' → IsBalanced t → IsBalanced t'
  move-IsBalanced p stays b = b
  move-IsBalanced p (calls d c e) b = b
  move-IsBalanced p (declines d e h) b = b
  move-IsBalanced p (gates ss h) b = b
  move-IsBalanced p (releases i) b = b
  move-IsBalanced p (sends d now i g e h k l) b = b
  move-IsBalanced {t = t} p (refuses e outcome) b = ground (arith, b)
  move-IsBalanced {t = t} p (admits d e h new) b = ground (
    arith,
    b,
    count-put (record { frame_id = e.id; request_id = e.request_id }) t.pending (new p).not_pending,
  )
  move-IsBalanced {t = t} p (answers_one i w r found same) b =
      rw same (ground (arith, b, count-take_out i t.pending w found))
  move-IsBalanced p (loses_one i never) b = absurd (never p)
  move-IsBalanced {t = t} p (answers_all outcome) b = omega (
    arith,
    b,
    count-append (λ r. q r.frame_id) (map (reply_to outcome) t.pending) t.replies,
    count-answers outcome t.pending,
  )

  moves-IsBalanced :
      {P : Type 0} {t t' : Transport} → P → Moves P t t' → IsBalanced t → IsBalanced t'
  moves-IsBalanced p done b = b
  moves-IsBalanced p (and_then x xs) b = moves-IsBalanced p xs (move-IsBalanced p x b)

  run-IsBalanced :
      (o : Options) (es : List Event) (t : Transport)
      → HoldsRun o es t
      → IsBalanced t
      → IsBalanced (run o es t)
  run-IsBalanced o [] t h b = b
  run-IsBalanced o (e ∷ es) t h b =
      run-IsBalanced o es (step o e t) h.1 (moves-IsBalanced h.0 (step-Moves o e t) b)

  close-waiting : (o : Options) (t : Transport) → waiting (close o t) ≡ 0
  unfolding close
  close-waiting o t = refl

-- Over any events, where each request gets the id of a new frame and the outbox can write when a response
-- is acknowledged: of the requests made with any set q of frame ids, each was answered once or its caller
-- waits; and after `close`, each was answered once.
pub run-answered :
    (o : Options) (es : List Event) (t : Transport) (q : String → Bool)
    → HoldsRun o es t
    → IsBalanced q t
    → (made q (run o es t) ≡ answers_given q (run o es t) + waiting q (run o es t))
      × (made q (close o (run o es t)) ≡ answers_given q (close o (run o es t)))
run-answered o es t q h b =
    let kept = run-IsBalanced q o es t h b in
    (
      kept,
      ground (
        arith,
        moves-IsBalanced q tt (close-Moves o (run o es t)) kept,
        close-waiting q o (run o es t),
      ),
    )
