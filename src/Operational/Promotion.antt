-- ===== src/Operational/Promotion.antt =====
-- src/operational-memory-store.ts: a draft is promoted once.
use abmind.Prelude.{
  ℕ, suc, ◌≤◌, ◌≡◌, refl, sym, ap, ◌∙◌, String, Bool, true, false, ◌&&◌, none, some, List, [], ◌∷◌,
  ◌++◌, arith, inl, inr, Bool-cases, eq_iff, length, length-append,
}
use abmind.Prelude.Table.{select, count, update, count-append, count-update, count-none}
use abmind.Operational.{Store, is_draft, memory_of, to_promoted, is_open, to_rejected}
use abmind.OperationalTypes.{Draft, Env, Memory, promoted}
use abmind.OperationalTypes.Checks.{RejectInput}
use abmind.Operational.Writes.{
  Change, same, drafted, promotes_one, rejects_one, swaps, Op, step, run, FreshRun, step-Change,
}

abbrev pub is_promoted : Draft → Bool
is_promoted d = elim d.status [ promoted ↦ true | x ↦ false ]

-- One row at most has the id of a draft, and there are as many memories as promoted drafts.
pub record Once (s : Store) : Type 0 where
  pub unique : (i : String) → count (is_draft i) s.drafts ≤ 1
  pub paired : length s.memories ≡ count is_promoted s.drafts

open_not_promoted : (d : Draft) → is_open d.status ≡ true → is_promoted d ≡ false
open_not_promoted d h = ground (arith, h)

update-none :
    (i : String) (f : Draft → Draft) (ds : List Draft)
    → count (is_draft i) ds ≡ 0
    → update (is_draft i) f ds ≡ ds
update-none i f [] h = refl
update-none i f (d ∷ ds) h = elim (Bool-cases (is_draft i d)) [
  | inl hit ↦ absurd (ground (arith, hit, h))
  | inr miss ↦ rw miss (ap (◌∷◌ d) (update-none i f ds (ground (arith, miss, h))))
]

count-promote :
    (i memory_id : String) (now : ℕ) (d : Draft) (ds : List Draft)
    → count (is_draft i) ds ≤ 1
    → select (is_draft i) ds ≡ some d
    → is_open d.status ≡ true
    → count is_promoted (update (is_draft i) (to_promoted memory_id now) ds)
      ≡ suc (count is_promoted ds)
count-promote i memory_id now d [] u found live = absurd (ground (arith, found))
count-promote i memory_id now d (x ∷ xs) u found live = elim (Bool-cases (is_draft i x)) [
  | inl hit ↦
      let k : some x ≡ some d = rw hit at found in
      let status : d.status ≡ x.status =
        sym (ap (λ o. elim o [ none ↦ x.status | some y ↦ y.status ]) k) in
      let low : is_promoted x ≡ false = open_not_promoted x (rw status at live) in
      rw (hit, update-none i (to_promoted memory_id now) xs (ground (arith, hit, u)), low) refl
  | inr miss ↦
      let rest =
        count-promote i memory_id now d xs (ground (arith, miss, u)) (rw miss at found) live in
      rw miss (elim (Bool-cases (is_promoted x)) [
        | inl e ↦ rw (e, rest) refl
        | inr e ↦ rw (e, rest) refl
      ])
]

count-reject :
    (i : RejectInput) (now : ℕ) (ds : List Draft)
    → count is_promoted
        (update (λ d. is_draft i.draft_id d && is_open d.status) (to_rejected i now) ds)
      ≡ count is_promoted ds
count-reject i now [] = refl
count-reject i now (d ∷ ds) = elim (Bool-cases (is_draft i.draft_id d && is_open d.status)) [
  | inl hit ↦
      let low : is_promoted d ≡ false = open_not_promoted d (ground (arith, hit)) in
      rw (hit, low) (count-reject i now ds)
  | inr miss ↦ rw miss (elim (Bool-cases (is_promoted d)) [
    | inl e ↦ rw (e, count-reject i now ds) refl
    | inr e ↦ rw (e, count-reject i now ds) refl
  ])
]

count-new_draft :
    (i : String) (ds : List Draft) (d : Draft)
    → count (is_draft i) ds ≤ 1
    → select (is_draft d.id) ds ≡ none
    → count (is_draft i) (ds ++ d ∷ []) ≤ 1
count-new_draft i ds d u free = elim (Bool-cases (is_draft i d)) [
  | inl hit ↦
      let e : d.id ≡ i = ground (arith, eq_iff d.id i, hit) in
      ground (
        arith,
        hit,
        count-append (is_draft i) ds (d ∷ []),
        count-none (is_draft i) ds (rw e at free),
      )
  | inr miss ↦ ground (arith, miss, count-append (is_draft i) ds (d ∷ []), u)
]

length-update :
    (p : Memory → Bool) (f : Memory → Memory) (ms : List Memory)
    → length (update p f ms) ≡ length ms
length-update p f [] = refl
length-update p f (m ∷ ms) = ap suc (length-update p f ms)

module _ (env : Env) {P : Type 0} (p : P) (s : Store) where
  Change-Once : {s' : Store} → Change env P s s' → Once s → Once s'
  Change-Once same b = b
  Change-Once (drafted d live proper fresh) b = record {
    unique = λ j. count-new_draft j s.drafts d (b.unique j) (fresh p);
    paired =
        ground
          (arith, b.paired, count-append is_promoted s.drafts (d ∷ []), open_not_promoted d live);
  }
  Change-Once (rejects_one i now) b = record {
    unique = λ j. omega (
      arith,
      b.unique j,
      count-update (is_draft j) (λ d. is_draft i.draft_id d && is_open d.status) (to_rejected i now)
          (λ x. refl) s.drafts,
    );
    paired = b.paired ∙ sym (count-reject i now s.drafts);
  }
  Change-Once (promotes_one t i h d found live proper m_new v_new) b = record {
    unique = λ j. omega (
      arith,
      b.unique j,
      count-update (is_draft j) (is_draft i.draft_id) (to_promoted t.memory_id t.now) (λ x. refl)
          s.drafts,
    );
    paired = omega (
      arith,
      b.paired,
      length-append s.memories (memory_of env t h ∷ []),
      count-promote i.draft_id t.memory_id t.now d s.drafts (b.unique i.draft_id) found live,
    );
  }
  Change-Once (swaps v expected f m found keeps w sealed chained proper kept fresh) b = record {
    unique = b.unique;
    paired = length-update _ f s.memories ∙ b.paired;
  }

-- After any writes, where the ids that they get are new: there are exactly as many memories as drafts that
-- were promoted, and no two drafts have one id. So no draft gives a second memory, and no memory comes
-- from elsewhere.
pub run-Once :
    (env : Env) (cs : List Op) (s : Store) → FreshRun env cs s → Once s → Once (run env cs s)
run-Once env [] s h b = b
run-Once env (c ∷ cs) s h b =
    run-Once env cs (step env c s) h.1 (Change-Once env h.0 s (step-Change env c s) b)
