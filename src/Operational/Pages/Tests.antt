-- ===== src/Operational/Pages/Tests.antt =====
-- Runs of the pages of src/operational-memory-service.ts, and their theorem at concrete drafts.
use abmind.Prelude.{
  ℕ, ◌+◌, ◌-◌, ◌≤◌, ◌*◌, ◌≡◌, refl, true, none, some, List, [], ◌∷◌, arith, length, ltb, filter,
}
use Prim.Native.String.{count as count_chars}
use abmind.Operational.{version_of}
use abmind.OperationalTypes.{
  Draft, Env, Memory, Scope, Version, active, draft, global, no_values, normalize_scope, promoted,
}
use abmind.Operational.Pages.{
  Codec, invalid, page, list_drafts, get_history, page_limit, accept, page_of, fill, draft_key,
  draft_cursor, has_status, readable, is_valid_version, is_canonical_scope,
}
use abmind.Operational.Pages.Filling.{Fits}
use abmind.Operational.Pages.Walk.{walk, walk-all}

abbrev codec : {A : Type 0} → Codec A
codec = record {
  page_bytes = λ ds c. 1000 * length ds;
  id_before = λ a b. ltb (count_chars a) (count_chars b);
}

abbrev env : Env
env = record {
  bytes = count_chars;
  canonical = λ s. s;
  evidence_ok = λ s. true;
  provenance_ok = λ s. true;
  hash = λ h. h.content;
}

abbrev scope : Scope
scope = record { level = global; values = no_values }

abbrev lesson : ℕ → Draft
lesson now = record {
  id = "d";
  status = draft;
  lesson = "retry";
  problem = none;
  recommendation = none;
  evidence = "[]";
  scope = scope;
  confidence = 70;
  sources = [];
  provenance = "{}";
  created_at = now;
  updated_at = now;
  promoted_memory_id = none;
  rejected_by = none;
  rejected_at = none;
  rejection_reason = none;
}

abbrev drafts : List Draft
drafts = lesson 300 ∷ lesson 200 ∷ record (lesson 150) { status = promoted } ∷ lesson 100 ∷ []

foreign_cursor_invalid :
    list_drafts codec env none
      (some 2)
      (some (
        readable
          (record { key = draft_key (lesson 200); memory_id = none; fingerprint = "s=draft" })))
      drafts
    ≡ invalid
unfolding list_drafts accept page_limit
foreign_cursor_invalid = refl

abbrev version : Version
version =
    version_of env "v-1" "m-1" none
      (record {
        content = "retry";
        status = active;
        scope = scope;
        confidence = 70;
        provenance = "{}";
        evidence = "[]";
      })
      "measured" "operator" 100

abbrev memory : Memory
memory = record {
  id = "m-1";
  status = active;
  scope = scope;
  content_hash = "retry";
  current_version_id = "v-1";
  confidence = 70;
  provenance = "{}";
  created_at = 100;
  updated_at = 100;
}

history_page_one :
    get_history codec env "m-1" none none
      (record { drafts = []; memories = memory ∷ []; versions = version ∷ [] })
      (version ∷ [])
    ≡ page (version ∷ []) none
unfolding get_history accept page_limit page_of fill is_valid_version is_canonical_scope
    normalize_scope
history_page_one = refl

-- The bytes of the texts of a row, and what stands around them.
abbrev row_bytes : Draft → ℕ
row_bytes d = count_chars d.id + count_chars d.lesson + count_chars d.evidence + 600

abbrev draft_bytes : List Draft → ℕ
draft_bytes [] = 40
draft_bytes (d ∷ ds) = row_bytes d + draft_bytes ds

abbrev draft_codec : Codec Draft
draft_codec = record {
  page_bytes = λ ds c. elim c [ none ↦ draft_bytes ds | some k ↦ draft_bytes ds + 120 ];
  id_before = λ a b. ltb (count_chars a) (count_chars b);
}

Fits-own :
    (d : Draft)
    → row_bytes d ≤ 262144 - 160
    → Fits draft_codec draft_key (draft_cursor (some draft)) d
Fits-own d h = record { alone = omega (arith, h); onward = omega (arith, h) }

walk-all_example :
    walk draft_codec env (some draft) (some 2) drafts 5 none
    ≡ some (filter (has_status (some draft)) drafts)
unfolding page_limit
walk-all_example =
    walk-all draft_codec env (some draft) (some 2) 2 drafts refl
      (
        Fits-own _ (omega arith),
        (Fits-own _ (omega arith), (Fits-own _ (omega arith), (Fits-own _ (omega arith), tt))),
      )
      (λ a b h. ground (arith, h)) (refl, (refl, (refl, (refl, tt))))
      ((refl, (refl, (refl, tt))), ((refl, (refl, tt)), ((refl, tt), (tt, tt))))
