-- ===== src/Recovery/Known.antt =====
-- src/runtime/recovery.rs: what stays known while the cache is rebuilt.
use usagedb.Prelude.{
  ℕ, ◌≡◌, ◌≢◌, Bool, true, Option, none, some, List, [], ◌∷◌, String, arith, ℕ_discrete, Bool-cases,
  Option-cases, inl, inr,
}
use usagedb.Prelude.Int.{ℤ, ltb_ℤ}
use usagedb.Prelude.Text.{String_discrete}
use usagedb.Prelude.Map.{get, get-insert}
use usagedb.Model.{UsageEvent}
use usagedb.Storage.Manifest.{SegmentMeta}
use usagedb.Ingest.Dedupe.{
  HotDedupe, new_event, against, classify, add_entry, contains_key, insert_known,
}
use usagedb.Ingest.Handler.{Env, compute_event_hashes}
use usagedb.Compact.{SidecarEntry}
use usagedb.Recovery.{
  DbRoot, RecoveryAnswers, register, insert_entries, register_all, rows_before, scan_segment,
  read_sidecar, register_segment, rebuild_dedupe,
}

-- The hash of an event's identifier is in the cache.
abbrev pub knows : Env → HotDedupe → UsageEvent → Bool
knows env d e = contains_key (compute_event_hashes env e).0 d.cache

insert_known-keeps :
    (h i p : ℕ) (t : ℤ) (d : HotDedupe)
    → contains_key h d.cache ≡ true
    → contains_key h (insert_known i p t d).cache ≡ true
unfolding insert_known add_entry contains_key
insert_known-keeps h i p t d k =
    ground
      (arith, k, get-insert ℕ_discrete i h (record { payload_hash = p; first_seen_ms = t }) d.cache)

pub insert_known-knows :
    (h p : ℕ) (t : ℤ) (d : HotDedupe) → contains_key h (insert_known h p t d).cache ≡ true
unfolding insert_known add_entry contains_key
insert_known-knows h p t d =
    ground
      (arith, get-insert ℕ_discrete h h (record { payload_hash = p; first_seen_ms = t }) d.cache)

-- A known identifier is not new, whatever the payload.
pub known-classify :
    (h p : ℕ) (d : HotDedupe) → contains_key h d.cache ≡ true → classify d h p ≢ new_event
unfolding classify against contains_key
known-classify h p d k e = ground (arith, k, e)

pub register-keeps :
    (env : Env) (e : UsageEvent) (h : ℕ) (d : HotDedupe)
    → contains_key h d.cache ≡ true
    → contains_key h (register env e d).cache ≡ true
unfolding register
register-keeps env e h d k =
    let (id_hash, payload_hash) = compute_event_hashes env e in
    insert_known-keeps h id_hash payload_hash e.ingested_at_ms d k

insert_entries-keeps :
    (es : List SidecarEntry) (h : ℕ) (d : HotDedupe)
    → contains_key h d.cache ≡ true
    → contains_key h (insert_entries es d).cache ≡ true
unfolding insert_entries
insert_entries-keeps [] h d k = k
insert_entries-keeps (((i, p), t) ∷ es) h d k =
    insert_entries-keeps es h (insert_known i p t d) (insert_known-keeps h i p t d k)

register_all-keeps :
    (env : Env) (es : List UsageEvent) (h : ℕ) (d : HotDedupe)
    → contains_key h d.cache ≡ true
    → contains_key h (register_all env es d).cache ≡ true
unfolding register_all
register_all-keeps env [] h d k = k
register_all-keeps env (e ∷ es) h d k =
    register_all-keeps env es h (register env e d) (register-keeps env e h d k)

register_segment-keeps :
    (env : Env) (a : RecoveryAnswers) (db : DbRoot) (id : String) (rows : Option (List UsageEvent))
    (h : ℕ) (d : HotDedupe)
    → contains_key h d.cache ≡ true
    → contains_key h (register_segment env a db id rows d).cache ≡ true
unfolding register_segment scan_segment
register_segment-keeps env a db id none h d k = k
register_segment-keeps env a db id (some rows) h d k =
    elim (Option-cases (read_sidecar a.sidecar_ok db.sidecars id)) [
      | inr (es, there) ↦ rw (register_segment, there) (insert_entries-keeps es h d k)
      | inl missing ↦ elim (Bool-cases (a.opened id)) [
        | inl opens ↦
            rw (register_segment, missing, opens)
              (register_all-keeps env (rows_before (a.breaks_after id) rows) h d k)
        | inr shut ↦ rw (register_segment, missing, shut) k
      ]
    ]

pub rebuild_dedupe-keeps :
    (env : Env) (a : RecoveryAnswers) (db : DbRoot) (cutoff : ℤ) (segments : List SegmentMeta)
    (h : ℕ) (d : HotDedupe)
    → contains_key h d.cache ≡ true
    → contains_key h (rebuild_dedupe env a db cutoff segments d).cache ≡ true
unfolding rebuild_dedupe
rebuild_dedupe-keeps env a db cutoff [] h d k = k
rebuild_dedupe-keeps env a db cutoff (s ∷ segments) h d k =
    let file = get String_discrete s.segment_id db.files in
    elim (Bool-cases (ltb_ℤ s.max_timestamp_ms cutoff)) [
      | inl old ↦ rw (rebuild_dedupe, old) (rebuild_dedupe-keeps env a db cutoff segments h d k)
      | inr recent ↦
          rw (rebuild_dedupe, recent)
            (rebuild_dedupe-keeps env a db cutoff segments h
              (register_segment env a db s.segment_id file d)
              (register_segment-keeps env a db s.segment_id file h d k))
    ]
