-- ===== src/Ingest/Handler.antt =====
-- src/api/http_server.rs: `handle_ingest` and `ingest_critical_section`, with `compute_event_hashes` of
-- src/runtime/recovery.rs and `period_for_ts` of src/period.rs.
-- The three locks are held for the whole of the critical section, so it is one step on the state. The
-- clock, the calendar (chrono), the hash (blake3), the encodings (bincode, serde_json) and the answers
-- of the operating system are parameters.
pub mod Counts
pub mod Failures
pub mod Retry
use usagedb.Prelude.{
  ℕ, suc, ◌+◌, ◌%◌, Bool, true, false, Option, none, some, List, [], ◌∷◌, String, ℕ_discrete, ltb,
  ◌==◌, ◌&&◌, if◌then◌else◌, any, take, map, length,
}
use usagedb.Prelude.Int.{ℤ, pos, to_bits}
use usagedb.Prelude.Map.{get, insert}
use text.Mathlib.Text.{◌==◌ as str_eq}
use usagedb.Model.{UsageEvent, EventKind, usage, correction, retraction, from_le_bytes, as_bytes}
use usagedb.Validate.{validate_event, Validation}
use usagedb.Ingest.Dedupe.{
  HotDedupe, new_event, exact_duplicate, payload_conflict, classify, commit,
}
use usagedb.Ingest.Memtable
use usagedb.Ingest.Memtable.{Memtable, drain_all}
use usagedb.Ingest.Wal.{LineAnswer, Wal, append_batch, sync, flush_buffer, rotate}
use usagedb.Storage.Manifest.{ClosedPeriod}

-- What the source calls and does not define.
pub record Env : Type 0 where
  pub blake3 : List ℕ → List ℕ
  pub serialize : UsageEvent → Option (List ℕ)
  pub to_json : UsageEvent → Option String
  pub calendar : ℤ → Option (ℤ × ℕ)
  pub event_base_size : ℕ

-- The answers of the clock and of the operating system during one call.
pub record Answers : Type 0 where
  pub ingest_now : ℤ
  pub clock : ℕ → ℤ
  pub written : ℕ → LineAnswer
  pub flushed : Bool
  pub synced : Bool
  pub rotate_flushed : Bool
  pub rotate_synced : Bool
  pub rotate_opened : Bool

pub data DurabilityMode : Type 0 where
  strict fast : DurabilityMode

pub record Config : Type 0 where
  pub max_memtable_size_bytes : ℕ
  pub durability_mode : DurabilityMode

-- The part of `AppStateInner` that the section holds under its locks.
pub record State : Type 0 where
  pub dedupe : HotDedupe
  pub wal : Wal
  pub memtable : Memtable

pub record FlushMessage : Type 0 where
  pub events : List UsageEvent
  pub sealed_wal_id : ℕ

pub record Classified : Type 0 where
  pub event : UsageEvent
  pub event_id_hash : ℕ
  pub payload_hash : ℕ

pub record IngestOutcome : Type 0 where
  pub accepted : ℕ
  pub duplicates : ℕ
  pub conflicts : ℕ
  pub rejected : ℕ
  pub drained : Option FlushMessage

pub data AppError : Type 0 where
  wal_append_failed wal_sync_failed wal_flush_failed wal_rotate_failed : AppError

pub data Result (A : Type 0) : Type 0 where
  ok : A → Result A
  err : AppError → Result A

-- recovery.rs
unfoldable pub blake3_u128 : Env → List ℕ → ℕ
blake3_u128 env bytes = from_le_bytes (take 16 (env.blake3 bytes))

unfoldable pub payload_hash_of : Env → Option (List ℕ) → ℕ
unfolding blake3_u128
payload_hash_of env none = 0
payload_hash_of env (some bytes) = blake3_u128 env bytes

unfoldable pub compute_event_hashes : Env → UsageEvent → ℕ × ℕ
unfolding payload_hash_of
compute_event_hashes env event = (
  blake3_u128 env (as_bytes event.event_id),
  payload_hash_of env (env.serialize (record event { ingested_at_ms = pos 0 })),
)

-- period.rs; the casts keep the low 16 and 8 bits.
unfoldable pub period_for_ts : Env → ℤ → Option (ℕ × ℕ)
unfolding to_bits
period_for_ts env ts_ms = elim (env.calendar ts_ms) [
  | none ↦ none
  | some (year, month) ↦ some (to_bits 16 year, month % 256)
]

unfoldable pub is_closed_for : String → ℕ → ℕ → ClosedPeriod → Bool
is_closed_for account year month p =
    str_eq p.account_id account && p.year == year && p.month == month

unfoldable pub in_closed_period : Env → List ClosedPeriod → UsageEvent → Bool
unfolding is_closed_for period_for_ts
in_closed_period env closed event = elim (period_for_ts env event.timestamp_ms) [
  | none ↦ false
  | some (year, month) ↦ any (is_closed_for event.account_id year month) closed
]

unfoldable pub is_usage : EventKind → Bool
is_usage usage = true
is_usage correction = false
is_usage retraction = false

-- One turn of the loop in `handle_ingest`: `none` is a rejection.
unfoldable pub admit : Env → List ClosedPeriod → ℤ → UsageEvent → Option Classified
unfolding is_usage
admit env closed ingest_now event = elim (validate_event event) [
  | Validation.err reason ↦ none
  | Validation.ok ↦
      if is_usage event.kind && in_closed_period env closed event
      then none
      else (let stamped : UsageEvent = record event { ingested_at_ms = ingest_now } in
          let (id_hash, payload_hash) = compute_event_hashes env stamped in
          some (record { event = stamped; event_id_hash = id_hash; payload_hash = payload_hash }))
]

unfoldable pub admit_all : Env → List ClosedPeriod → ℤ → List UsageEvent → ℕ × List Classified
unfolding admit
admit_all env closed ingest_now [] = (0, [])
admit_all env closed ingest_now (event ∷ events) =
    let (rejected, rest) = admit_all env closed ingest_now events in
    elim (admit env closed ingest_now event) [
      | none ↦ (suc rejected, rest)
      | some c ↦ (rejected, c ∷ rest)
    ]

-- The outcome of the classification loop.
pub record Sorted : Type 0 where
  pub new_events : List Classified
  pub duplicates : ℕ
  pub conflicts : ℕ

abbrev pub Seen : Type 0
Seen = List (ℕ × ℕ)

unfoldable pub add_duplicate : Sorted → Sorted
add_duplicate r = record r { duplicates = suc r.duplicates }

unfoldable pub add_conflict : Sorted → Sorted
add_conflict r = record r { conflicts = suc r.conflicts }

unfoldable pub add_new : Classified → Sorted → Sorted
add_new c r = record r { new_events = c ∷ r.new_events }

unfoldable pub sort_batch : HotDedupe → Seen → List Classified → Sorted
unfolding add_duplicate add_conflict add_new
sort_batch dedupe seen [] = record { new_events = []; duplicates = 0; conflicts = 0 }
sort_batch dedupe seen (c ∷ cs) = elim (get ℕ_discrete c.event_id_hash seen) [
  | some prior_payload ↦
      let rest = sort_batch dedupe seen cs in
      if prior_payload == c.payload_hash then add_duplicate rest else add_conflict rest
  | none ↦ elim (classify dedupe c.event_id_hash c.payload_hash) [
    | new_event ↦
        add_new c (sort_batch dedupe (insert ℕ_discrete c.event_id_hash c.payload_hash seen) cs)
    | exact_duplicate ↦ add_duplicate (sort_batch dedupe seen cs)
    | payload_conflict ↦ add_conflict (sort_batch dedupe seen cs)
  ]
]

-- Phase 2.
unfoldable pub make_durable : DurabilityMode → Answers → Wal → Result Wal × Wal
make_durable strict a wal =
    let (done, wal') = sync a.flushed a.synced wal in
    (if done then ok wal' else err wal_sync_failed, wal')
make_durable fast a wal =
    let (done, wal') = flush_buffer a.flushed wal in
    (if done then ok wal' else err wal_flush_failed, wal')

unfoldable pub log_batch : Env → DurabilityMode → Answers → List Classified → Wal → Result Wal × Wal
unfolding make_durable
log_batch env mode a [] wal = (ok wal, wal)
log_batch env mode a (c ∷ cs) wal =
    let (appended, wal') =
      append_batch env.to_json a.written 0 (map (λ (d : Classified). d.event) (c ∷ cs)) wal in
    if appended then make_durable mode a wal' else (err wal_append_failed, wal')

-- Phase 3: the clock is read twice by every `commit` and once by every `insert`.
unfoldable pub commit_all :
    Env → (ℕ → ℤ) → ℕ → List Classified → HotDedupe × Memtable → HotDedupe × Memtable
commit_all env clock i [] (dedupe, memtable) = (dedupe, memtable)
commit_all env clock i (c ∷ cs) (dedupe, memtable) = commit_all env clock (i + 3) cs (
  commit (clock i) (clock (i + 1)) c.event_id_hash c.payload_hash dedupe,
  Memtable.insert env.event_base_size (clock (i + 2)) c.event memtable,
)

-- The rotation of a memtable that has grown too large. The memtable is emptied first.
unfoldable pub drain : Answers → State → Result FlushMessage × State
drain a s =
    let (events, emptied) = drain_all s.memtable in
    let (sealed, wal') = rotate a.rotate_flushed a.rotate_synced a.rotate_opened s.wal in
    let s' : State = record s { wal = wal'; memtable = emptied } in
    elim sealed [
      | none ↦ (err wal_rotate_failed, s')
      | some id ↦ (ok (record { events = events; sealed_wal_id = id }), s')
    ]

unfoldable pub finish : Config → Answers → ℕ → Sorted → State → Result IngestOutcome × State
finish config a rejected sorted s =
    let outcome : Option FlushMessage → IngestOutcome = λ msg. record {
      accepted = length sorted.new_events;
      duplicates = sorted.duplicates;
      conflicts = sorted.conflicts;
      rejected = rejected;
      drained = msg;
    } in
    if ltb config.max_memtable_size_bytes s.memtable.approx_size_bytes
    then (let (r, s') = drain a s in
        (elim r [ ok msg ↦ ok (outcome (some msg)) | err e ↦ err e ], s'))
    else (ok (outcome none), s)

unfoldable pub ingest_critical_section :
    Env → Config → Answers → List Classified → ℕ → State → Result IngestOutcome × State
ingest_critical_section env config a classified rejected s =
    let sorted = sort_batch s.dedupe [] classified in
    let (logged, wal') = log_batch env config.durability_mode a sorted.new_events s.wal in
    elim logged [
      | err e ↦ (err e, record s { wal = wal' })
      | ok _ ↦
          (let (dedupe', memtable') =
              commit_all env a.clock 0 sorted.new_events (s.dedupe, s.memtable) in
            finish config a rejected sorted
              (record { dedupe = dedupe'; wal = wal'; memtable = memtable' }))
    ]

unfoldable pub handle_ingest :
    Env
    → Config
    → Answers
    → List ClosedPeriod
    → List UsageEvent
    → State
    → Result IngestOutcome × State
handle_ingest env config a closed events s =
    let (rejected, classified) = admit_all env closed a.ingest_now events in
    ingest_critical_section env config a classified rejected s
