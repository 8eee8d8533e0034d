-- ===== src/Recovery/Sidecars.antt =====
-- src/runtime/recovery.rs: the two ways to rebuild the cache from the segments.
use usagedb.Prelude.{
  ◌≡◌, ◌≢◌, refl, sym, ap, ◌∙◌, subst, Bool, true, Option, none, some, List, [], ◌∷◌, String, arith,
  ite, Bool-cases, Option-cases, inl, inr, if◌then◌else◌,
}
use usagedb.Prelude.Int.{ℤ, ltb_ℤ}
use usagedb.Prelude.Text.{String_discrete}
use usagedb.Prelude.Map.{get}
use usagedb.Model.{UsageEvent}
use usagedb.Storage.Manifest.{SegmentMeta}
use usagedb.Ingest.Dedupe.{HotDedupe}
use usagedb.Ingest.Handler.{Env}
use usagedb.Ingest.Flusher.{Files}
use usagedb.Compact.{SidecarEntry, idx_entries}
use usagedb.Recovery.{
  DbRoot, RecoveryAnswers, register, insert_entries, register_all, rows_before, scan_segment,
  read_sidecar, register_segment, rebuild_dedupe,
}

-- The sidecar of a file is missing, or has the hashes of its rows.
abbrev pub Matches : Env → List UsageEvent → Option (List SidecarEntry) → Type 0
Matches env rows none = Unit
Matches env rows (some entries) = entries ≡ idx_entries env rows

abbrev pub AllMatch : Env → Files → List (String × List SidecarEntry) → Type 0
AllMatch env [] sidecars = Unit
AllMatch env ((id, rows) ∷ files) sidecars =
    Matches env rows (get String_discrete id sidecars) × AllMatch env files sidecars

insert_entries-idx_entries :
    (env : Env) (rows : List UsageEvent) (d : HotDedupe)
    → insert_entries (idx_entries env rows) d ≡ register_all env rows d
unfolding insert_entries idx_entries register_all register
insert_entries-idx_entries env [] d = refl
insert_entries-idx_entries env (e ∷ rows) d = insert_entries-idx_entries env rows (register env e d)

-- The sidecar of a file that the files list.
abbrev MatchesIf :
    Env → List (String × List SidecarEntry) → String → Option (List UsageEvent) → Type 0
MatchesIf env sidecars id none = Unit
MatchesIf env sidecars id (some rows) = Matches env rows (get String_discrete id sidecars)

find_match :
    (env : Env) (id : String) (files : Files) (sidecars : List (String × List SidecarEntry))
    → AllMatch env files sidecars
    → MatchesIf env sidecars id (get String_discrete id files)
unfolding get
find_match env id [] sidecars h = tt
find_match env id ((i, rows) ∷ files) sidecars h =
    elim (String_discrete i id)
      as (λ c. MatchesIf env sidecars id (ite c (some rows) (get String_discrete id files))) [
        | yes same ↦ subst (λ j. Matches env rows (get String_discrete j sidecars)) same h.0
        | no other ↦ find_match env id files sidecars h.1
      ]

abbrev pub without_sidecars : DbRoot → DbRoot
without_sidecars db = record db { sidecars = [] }

read_none : (ok : String → Bool) (id : String) → read_sidecar ok [] id ≡ none
unfolding read_sidecar get
read_none ok id = ground arith

scan_whole :
    (env : Env) (a : RecoveryAnswers) (id : String) (rows : List UsageEvent) (d : HotDedupe)
    → a.opened id ≡ true
    → a.breaks_after id ≡ none
    → scan_segment env a id rows d ≡ register_all env rows d
unfolding scan_segment rows_before
scan_whole env a id rows d o b = rw (scan_segment, o, b) refl

slow_path :
    (env : Env) (a : RecoveryAnswers) (db : DbRoot) (id : String) (rows : List UsageEvent)
    (d : HotDedupe)
    → read_sidecar a.sidecar_ok db.sidecars id ≡ none
    → register_segment env a db id (some rows) d ≡ scan_segment env a id rows d
unfolding register_segment
slow_path env a db id rows d h = rw (register_segment, h) refl

fast_path :
    (env : Env) (a : RecoveryAnswers) (db : DbRoot) (id : String) (rows : List UsageEvent)
    (entries : List SidecarEntry) (d : HotDedupe)
    → read_sidecar a.sidecar_ok db.sidecars id ≡ some entries
    → register_segment env a db id (some rows) d ≡ insert_entries entries d
unfolding register_segment
fast_path env a db id rows entries d h = rw (register_segment, h) refl

not_some : {A : Type 0} (x : A) → none ≢ some x
not_some x e = ground (arith, e)

entries_of :
    (env : Env) (ok : String → Bool) (sidecars : List (String × List SidecarEntry)) (id : String)
    (rows : List UsageEvent) (entries : List SidecarEntry)
    → Matches env rows (get String_discrete id sidecars)
    → read_sidecar ok sidecars id ≡ some entries
    → entries ≡ idx_entries env rows
unfolding read_sidecar
entries_of env ok sidecars id rows entries h k = elim (Bool-cases (ok id)) [
  | inl fine ↦
      subst (Matches env rows)
        (subst (λ b. (if b then get String_discrete id sidecars else none) ≡ some entries) fine k) h
  | inr bad ↦ absurd (
      not_some entries
        (subst (λ b. (if b then get String_discrete id sidecars else none) ≡ some entries) bad k))
]

segment_same :
    (env : Env) (a : RecoveryAnswers) (db : DbRoot) (id : String) (file : Option (List UsageEvent))
    (d : HotDedupe)
    → a.opened id ≡ true
    → a.breaks_after id ≡ none
    → MatchesIf env db.sidecars id file
    → register_segment env a db id file d ≡ register_segment env a (without_sidecars db) id file d
unfolding register_segment
segment_same env a db id none d o b h = refl
segment_same env a db id (some rows) d o b h =
    let slow = slow_path env a (without_sidecars db) id rows d (read_none a.sidecar_ok id) in
    elim (Option-cases (read_sidecar a.sidecar_ok db.sidecars id)) [
      | inl missing ↦ slow_path env a db id rows d missing ∙ sym slow
      | inr (entries, there) ↦
          fast_path env a db id rows entries d there
          ∙ ap (λ es. insert_entries es d)
              (entries_of env a.sidecar_ok db.sidecars id rows entries h there)
          ∙ insert_entries-idx_entries env rows d
          ∙ sym (slow ∙ scan_whole env a id rows d o b)
    ]

-- The fast way over the sidecars rebuilds the same cache as the scan of all recent segments. The
-- conditions: a sidecar that is there has the hashes of its segment's rows, and the segments can be
-- read to their end.
pub rebuild_dedupe-sidecars :
    (env : Env) (a : RecoveryAnswers) (db : DbRoot) (cutoff : ℤ) (segments : List SegmentMeta)
    (d : HotDedupe)
    → AllMatch env db.files db.sidecars
    → ((id : String) → a.opened id ≡ true)
    → ((id : String) → a.breaks_after id ≡ none)
    → rebuild_dedupe env a db cutoff segments d
      ≡ rebuild_dedupe env a (without_sidecars db) cutoff segments d
unfolding rebuild_dedupe
rebuild_dedupe-sidecars env a db cutoff [] d m o b = refl
rebuild_dedupe-sidecars env a db cutoff (s ∷ segments) d m o b =
    let id = s.segment_id in
    let file = get String_discrete id db.files in
    elim (Bool-cases (ltb_ℤ s.max_timestamp_ms cutoff)) [
      | inl old ↦
          rw (rebuild_dedupe, old) (rebuild_dedupe-sidecars env a db cutoff segments d m o b)
      | inr recent ↦
          rw (rebuild_dedupe, recent)
            (rebuild_dedupe-sidecars env a db cutoff segments (register_segment env a db id file d)
                m o b
              ∙ ap (rebuild_dedupe env a (without_sidecars db) cutoff segments) (
                  segment_same env a db id file d (o id) (b id)
                    (find_match env id db.files db.sidecars m)))
    ]
