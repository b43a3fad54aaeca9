-- ===== src/Operational/Pages.antt =====
-- src/operational-memory-service.ts: the pages of listDrafts and getHistory, with the queries of
-- src/operational-memory-store.ts that they make. A table is the list of its rows in the order of
-- the query, newest first. `Codec` is what the language's library and SQLite decide: the size of a page's
-- JSON and the order of two ids. A cursor is what its text decodes to; `unreadable` is one that
-- parseCursor does not take. The check of the length of a cursor's own text, which an id of 128 bytes
-- cannot reach, is left out.
pub mod Filling
pub mod Walk
mod Tests
use abmind.Prelude.{
  ℕ, suc, ◌+◌, String, Bool, true, false, ◌&&◌, ◌||◌, not, Option, none, some, List, [], ◌∷◌, ◌++◌,
  str_eq, ltb, leb, ◌==◌, if◌then◌else◌, or_else, length, take, filter,
}
use abmind.Operational.{Store, get_memory}
use abmind.OperationalTypes.{
  Draft, DraftStatus, Env, HashInput, Memory, Scope, Version, draft, id_max, normalize_scope,
  promoted, rejected, scope_value,
}

pub record Key : Type 0 where
  pub created_at : ℕ
  pub id : String

pub record Cursor : Type 0 where
  pub key : Key
  pub memory_id : Option String
  pub fingerprint : String

pub data Given : Type 0 where
  unreadable : Given
  readable : Cursor → Given

pub record Codec (A : Type 0) : Type 0 where
  pub page_bytes : List A → Option Cursor → ℕ
  pub id_before : String → String → Bool

pub data Paged (A : Type 0) : Type 0 where
  invalid missing : Paged A
  page : List A → Option Cursor → Paged A

abbrev pub page_limit_max : ℕ
page_limit_max = 100

abbrev pub page_serialized_max : ℕ
page_serialized_max = 262144

pub page_limit : Option ℕ → Option ℕ
page_limit limit =
    let n = or_else limit 50 in if ltb n 1 || ltb page_limit_max n then none else some n

module _ {A : Type 0} (codec : Codec A) (key : A → Key) where
  -- created_at < ? OR (created_at = ? AND id < ?)
  abbrev pub older : Key → A → Bool
  older c x =
      ltb (key x).created_at c.created_at
      || (key x).created_at == c.created_at && codec.id_before (key x).id c.id

  abbrev pub after : Option Key → A → Bool
  after none x = true
  after (some c) x = older c x

  -- The rows of a query, one more than the limit.
  abbrev pub candidates : Option Key → ℕ → List A → List A
  candidates c limit rows = take (suc limit) (filter (after c) rows)

  abbrev pub last_key : List A → Option Key
  last_key [] = none
  last_key (x ∷ []) = some (key x)
  last_key (x ∷ y ∷ ys) = last_key (y ∷ ys)

  module _ (cursor : Key → Cursor) where
    -- The cursor after a row that is not the last.
    abbrev pub cursor_at : Bool → A → Option Cursor
    cursor_at more x = if more then some (cursor (key x)) else none

    abbrev cut : List A → Option Key → Paged A
    cut items none = invalid
    cut items (some k) = page items (some (cursor k))

    -- The loop over the candidates up to the limit.
    pub fill : Bool → ℕ → List A → Option Cursor → List A → Paged A
    fill has_more total items next [] = page items next
    fill has_more total items next (x ∷ xs) =
        let c = cursor_at (has_more || ltb (length items + 1) total) x in
        let rest = fill has_more total (items ++ x ∷ []) c xs in
        if ltb page_serialized_max (codec.page_bytes (items ++ x ∷ []) c)
        then cut items (last_key items)
        else rest

    pub page_of : ℕ → List A → Paged A
    page_of limit cands = fill (ltb limit (length cands)) (length cands) [] none (take limit cands)

-- The key of a cursor that is given, or none if it is refused.
pub accept : (String → ℕ) → String → Option String → Option Given → Option (Option Key)
accept bytes fingerprint memory_id none = some none
accept bytes fingerprint memory_id (some unreadable) = none
accept bytes fingerprint memory_id (some (readable c)) =
    if str_eq c.fingerprint fingerprint
      && same memory_id c.memory_id
      && ltb 0 (bytes c.key.id)
      && leb (bytes c.key.id) id_max
    then some (some c.key)
    else none
  where
    same : Option String → Option String → Bool
    same none given = true
    same (some i) none = false
    same (some i) (some j) = str_eq j i

abbrev pub draft_key : Draft → Key
draft_key d = record { created_at = d.created_at; id = d.id }

abbrev pub version_key : Version → Key
version_key v = record { created_at = v.created_at; id = v.id }

abbrev pub fingerprint_of : Option DraftStatus → String
fingerprint_of none = "default"
fingerprint_of (some draft) = "s=draft"
fingerprint_of (some promoted) = "s=promoted"
fingerprint_of (some rejected) = "s=rejected"

abbrev pub has_status : Option DraftStatus → Draft → Bool
has_status none d = true
has_status (some s) d = same s d.status
  where
    same : DraftStatus → DraftStatus → Bool
    same draft draft = true
    same promoted promoted = true
    same rejected rejected = true
    same a b = false

abbrev pub draft_cursor : Option DraftStatus → Key → Cursor
draft_cursor status k = record { key = k; memory_id = none; fingerprint = fingerprint_of status }

abbrev draft_page :
    Codec Draft → Option DraftStatus → List Draft → Option ℕ → Option (Option Key) → Paged Draft
draft_page codec status drafts none c = invalid
draft_page codec status drafts (some limit) none = invalid
draft_page codec status drafts (some limit) (some c) =
    page_of codec draft_key (draft_cursor status) limit
      (candidates codec draft_key c limit (filter (has_status status) drafts))

-- `listDrafts` over the drafts in the order of the query.
pub list_drafts :
    Codec Draft → Env → Option DraftStatus → Option ℕ → Option Given → List Draft → Paged Draft
list_drafts codec env status limit given drafts =
    draft_page codec status drafts (page_limit limit)
      (accept env.bytes (fingerprint_of status) none given)

abbrev same_value : Option String → Option String → Bool
same_value none none = true
same_value (some a) (some b) = str_eq a b
same_value a b = false

-- `isCanonicalScope`.
abbrev is_same_scope : Scope → Option Scope → Bool
is_same_scope scope none = false
is_same_scope scope (some t) =
    same_value t.values.platform_value scope.values.platform_value
    && same_value t.values.host_value scope.values.host_value
    && same_value t.values.workspace_value scope.values.workspace_value
    && same_value t.values.repository_value scope.values.repository_value
    && same_value t.values.task_environment_value scope.values.task_environment_value

pub is_canonical_scope : Env → Scope → Bool
is_canonical_scope env scope =
    is_same_scope scope (normalize_scope env scope.level (scope_value scope.level scope.values))

pub is_valid_version : Env → Version → Bool
unfolding is_canonical_scope
is_valid_version env v =
    is_canonical_scope env v.scope
    && str_eq
        (env.hash (record {
          content = v.content;
          status = v.status;
          scope = v.scope;
          confidence = v.confidence;
          provenance = v.provenance;
          evidence = v.evidence;
        }))
        v.content_hash

abbrev history_cursor : String → Key → Cursor
history_cursor memory_id k = record { key = k; memory_id = some memory_id; fingerprint = "default" }

abbrev all_valid : Env → List Version → Bool
all_valid env [] = true
all_valid env (v ∷ vs) = is_valid_version env v && all_valid env vs

abbrev history_page :
    Codec Version → Env → String → List Version → Option ℕ → Option (Option Key) → Paged Version
history_page codec env i versions none c = invalid
history_page codec env i versions (some limit) none = invalid
history_page codec env i versions (some limit) (some c) =
    let cands =
      candidates codec version_key c limit (filter (λ v. str_eq v.memory_id i) versions) in
    if all_valid env cands
    then page_of codec version_key (history_cursor i) limit cands
    else invalid

abbrev history_of :
    Codec Version
    → Env
    → String
    → Option ℕ
    → Option Given
    → List Version
    → Option Memory
    → Paged Version
history_of codec env i limit given versions none = missing
history_of codec env i limit given versions (some m) =
    if is_canonical_scope env m.scope
    then history_page codec env i versions (page_limit limit)
        (accept env.bytes "default" (some i) given)
    else invalid

-- `getHistory` over the versions in the order of the query.
pub get_history :
    Codec Version → Env → String → Option ℕ → Option Given → Store → List Version → Paged Version
get_history codec env i limit given s versions =
    if ltb id_max (env.bytes i)
    then invalid
    else history_of codec env i limit given versions (get_memory i s)
