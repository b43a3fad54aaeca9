-- ===== src/SleepService/Coordinator/Resumption.antt =====
-- src/sleep-service/sleep-coordinator.ts: which runs `resume` takes up again.
use abmind.Prelude.{
  ℕ, ◌≡◌, refl, ◌∙◌, ap, String, Bool, true, false, ◌&&◌, ◌||◌, not, Option, none, some, is_none,
  arith, Bool-cases, Option-cases, inl, inr,
}
use abmind.SleepService.Coordinator.Preservation.{persist-persisted}
use abmind.SleepService.Coordinator.{
  Coordinator, LastRun, Validator, Checkpoint, valid, invalid, unregistered, ResumeResult, started,
  accepted, persist, start, begin, resume, resume_last, repair, names, no_id, is_valid,
  is_unsupported, is_healthy, is_legacy, repaired,
}

abbrev pub is_accepted : ResumeResult → Bool
is_accepted (started (accepted id)) = true
is_accepted r = false

-- A last run of a format that is known, that did not end well, and that either says so itself under its
-- id, or is an old failure whose checkpoint is valid.
abbrev pub may_continue : Validator → LastRun → Bool
may_continue validate l =
    not (is_unsupported l.format_version)
    && not (is_healthy l.status)
    && (l.resumable && not (no_id l.run_id) || is_legacy l && is_valid (validate l.run_id))

abbrev pub continues : Validator → Option String → Option LastRun → Bool
continues validate q none = false
continues validate q (some l) = names q l.run_id && may_continue validate l

abbrev pub may_resume : Validator → Option String → Coordinator → Bool
may_resume validate q c = is_none c.active_run && c.registered && continues validate q c.last_run

start-accepted :
    (now : ℕ) (id mode : String) (c : Coordinator)
    → c.active_run ≡ none
    → c.registered ≡ true
    → start now id mode c ≡ (begin now id mode c, accepted id)
unfolding start
start-accepted now id mode c e f = simp (e, f, start) refl

repair-accepted :
    (now : ℕ) (id : String) (written : Bool) (p : Checkpoint) (l : LastRun) (c : Coordinator)
    → c.active_run ≡ none
    → c.registered ≡ true
    → is_accepted (repair now id written p l c).1 ≡ is_valid p
unfolding repair
repair-accepted now id written unregistered l c e f = refl
repair-accepted now id written invalid l c e f = refl
repair-accepted now id written valid l c e f =
    let c' : Coordinator = record c { last_run = some (repaired l) } in
    let p = persist-persisted written c' in
    ap (λ x. is_accepted (started x.1))
      (start-accepted now id "resume" (persist written c') (ap (λ d. d.active_run) p ∙ e)
        (ap (λ d. d.registered) p ∙ f))

resume_last-accepted :
    (now : ℕ) (id : String) (written : Bool) (validate : Validator) (l : LastRun) (c : Coordinator)
    → c.active_run ≡ none
    → c.registered ≡ true
    → is_accepted (resume_last now id written validate l c).1 ≡ may_continue validate l
unfolding resume_last
resume_last-accepted now id written validate l c e f =
    let s = start-accepted now id "resume" c e f in
    let r = repair-accepted now id written (validate l.run_id) l c e f in ground (arith, s, r)

-- `resume` accepts a call in just the cases that the rule names: no run is active, a service is
-- registered, the last run is the one that the call names, if it names one, and it may continue.
pub resume-accepted :
    (now : ℕ) (id : String) (written : Bool) (validate : Validator) (q : Option String)
    (c : Coordinator)
    → is_accepted (resume now id written validate q c).1 ≡ may_resume validate q c
unfolding resume
resume-accepted now id written validate q c = elim (Option-cases c.active_run) [
  | inr (r, e) ↦ simp (e, resume) refl
  | inl e ↦ elim (Bool-cases c.registered) [
    | inr f ↦ simp (e, f, resume) refl
    | inl f ↦ elim (Option-cases c.last_run) [
      | inl g ↦ simp (e, f, g, resume) refl
      | inr (l, g) ↦ elim (Bool-cases (names q l.run_id)) [
        | inr h ↦ simp (e, f, g, h, resume) refl
        | inl h ↦ simp (e, f, g, h, resume) (resume_last-accepted now id written validate l c e f)
      ]
    ]
  ]
]
