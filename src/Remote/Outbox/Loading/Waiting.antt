-- ===== src/Remote/Outbox/Loading/Waiting.antt =====
-- src/remote/request-outbox.ts: the states of the entries that a process loads from the file.
use abmind.Prelude.{
  ℕ, ◌+◌, ◌≡◌, refl, ap, String, Bool, true, false, ◌||◌, not, Option, none, some, List, [], ◌∷◌,
  map, ltb, leb, if◌then◌else◌, All, arith, Bool-cases, Option-cases, inl, inr,
}
use abmind.Remote.Outbox.{
  Entry, Outbox, Disk, is_in_flight, checkpoint, max_entry_bytes, max_file_bytes,
}
use abmind.Remote.Outbox.Loading.{
  RawEntry, Sizes, File, garbage, Texts, load_file, version_1, version_2, base, valid_v2, migrated,
  scan, read_all, fits, among, normalize, validate_v2, migrate_v1, load, unloaded, aged,
  retry_deadline,
}
use abmind.Remote.Outbox.Loading.Reload.{validate_v2-entries}

normalize-is_in_flight :
    (es : List Entry) → All (λ e. is_in_flight e.state ≡ false) (map normalize es)
unfolding normalize
normalize-is_in_flight [] = tt
normalize-is_in_flight (e ∷ es) = (
  elim (Bool-cases (is_in_flight e.state)) [
    | inl h ↦ simp (h, normalize) refl
    | inr h ↦ simp (h, normalize) refl
  ],
  normalize-is_in_flight es,
)

-- Every entry that is read has a property that the reader gives it.
module _ (P : Entry → Type 0) (z : Sizes) (read : RawEntry → Option Entry)
    (h : (r : RawEntry) (e : Entry) → read r ≡ some e → P e) where
  scan-All :
      (seen : List String) (rs : List RawEntry) (es : List Entry)
      → scan z read seen rs ≡ some es
      → All P es
  unfolding scan
  scan-All seen [] es e =
      let q : [] ≡ es = ap (λ o. elim o [ none ↦ [] | some xs ↦ xs ]) e in rw (← q) tt
  scan-All seen (r ∷ rs) es e = elim (Option-cases (read r)) [
    | inl f ↦ absurd (ground (arith, f, e))
    | inr (x, f) ↦ elim (Bool-cases (among x.id seen || ltb max_entry_bytes (z.entry r))) [
      | inl g ↦ absurd (ground (arith, f, g, e))
      | inr g ↦ elim (Option-cases (scan z read (x.id ∷ seen) rs)) [
        | inl k ↦ absurd (ground (arith, f, g, k, e))
        | inr (xs, k) ↦
            let w : some (x ∷ xs) ≡ some es = rw (f, g, k) at e in
            let q : x ∷ xs ≡ es = ap (λ o. elim o [ none ↦ x ∷ xs | some ys ↦ ys ]) w in
            rw (← q) (h r x f, scan-All (x.id ∷ seen) rs xs k)
      ]
    ]
  ]

migrated-is_in_flight :
    (date : String → Option ℕ) (now : ℕ) (r : RawEntry) (e : Entry)
    → migrated date now r ≡ some e
    → is_in_flight e.state ≡ false
unfolding migrated
migrated-is_in_flight date now r e h = elim (Option-cases (base date r)) [
  | inl f ↦ absurd (ground (arith, f, h))
  | inr (b, f) ↦
      let w : some (aged date now r b) ≡ some e = rw f at h in
      let q : aged date now r b ≡ e =
        ap (λ o. elim o [ none ↦ aged date now r b | some x ↦ x ]) w in
      rw (← q) (elim (Bool-cases (leb (b.created_at + retry_deadline) now)) [
        | inl g ↦ rw g refl
        | inr g ↦ rw g refl
      ])
]

abbrev pub Waits : Outbox → Type 0
Waits o = All (λ e. is_in_flight e.state ≡ false) o.entries

checkpoint-entries : (d : Disk) (o : Outbox) → (checkpoint d o).0.entries ≡ o.entries
unfolding checkpoint
checkpoint-entries d o =
    elim (Bool-cases (ltb max_file_bytes (d.size o.entries) || not d.write_ok)) [
      | inl e ↦ rw e refl
      | inr e ↦ rw e refl
    ]

migrate_v1-Waits :
    (d : Disk) (x : Option (List Entry)) (o : Outbox)
    → ((es : List Entry) → x ≡ some es → All (λ e. is_in_flight e.state ≡ false) es)
    → Waits (migrate_v1 d x o)
unfolding migrate_v1
migrate_v1-Waits d none o h = tt
migrate_v1-Waits d (some es) o h = elim (Bool-cases (checkpoint d (record o { entries = es })).1) [
  | inl e ↦ rw e (rw (checkpoint-entries d (record o { entries = es })) (h es refl))
  | inr e ↦ rw e tt
]

load_file-Waits :
    (date : String → Option ℕ) (now wait : ℕ) (z : Sizes) (d : Disk) (f : File)
    → Waits (load_file date now z d wait f)
unfolding load_file validate_v2
load_file-Waits date now wait z d garbage = tt
load_file-Waits date now wait z d (version_1 rs) =
    migrate_v1-Waits d (read_all z (migrated date now) rs) (unloaded wait) (all_wait (fits z rs))
  where
    all_wait :
        (b : Bool) (es : List Entry)
        → (if b then scan z (migrated date now) [] rs else none) ≡ some es
        → All (λ e. is_in_flight e.state ≡ false) es
    all_wait true es e =
        scan-All (λ e. is_in_flight e.state ≡ false) z (migrated date now)
          (migrated-is_in_flight date now) [] rs es e
    all_wait false es e = absurd (ground (arith, e))
load_file-Waits date now wait z d (version_2 rs) = v2_waits (read_all z (valid_v2 date) rs)
  where
    v2_waits : (x : Option (List Entry)) → Waits (validate_v2 d x (unloaded wait))
    v2_waits none = tt
    v2_waits (some es) =
        rw ((validate_v2-entries d es (unloaded wait) refl).0) (normalize-is_in_flight es)

-- Whatever file a process finds, no entry that it loads is in flight: what an earlier process was sending
-- waits to be sent again, and a file of the first version has none.
pub load-Waits :
    (x : Texts) (now wait : ℕ) (z : Sizes) (d : Disk) (text : Option String)
    → Waits (load x now z d wait text)
unfolding load
load-Waits x now wait z d none = tt
load-Waits x now wait z d (some text) =
    load_file-Waits x.parse_date now wait z d (x.parse_file text)
