-- ===== src/Rollup/Hours.antt =====
-- src/rollup/worker.rs: the loop over the hours in `tick`, with `write_rollup_segment` and
-- `build_rollup_segment_meta`.
-- A raw segment's file is its rows, as the flusher wrote them, and `readable` says whether it can be read.
-- A `HashMap` is an association list, whose order of iteration is that of the first insertions.
pub mod Events
pub mod Totals
pub mod Fuel
use usagedb.Prelude.{
  ℕ, zero, suc, ◌+◌, Bool, true, false, Option, none, some, List, [], ◌∷◌, ◌++◌, String, ℕ_discrete,
  ◌==◌, ◌&&◌, ◌||◌, not, any, length, if◌then◌else◌,
}
use usagedb.Prelude.Int.{ℤ, pos, ltb_ℤ, leb_ℤ, add64, sub64, saturating_add}
use usagedb.Prelude.Text.{String_discrete, str_lt}
use usagedb.Prelude.Map.{get, insert, remove}
use usagedb.Prelude.Entries.{update_entries}
use usagedb.Model.{UsageEvent, SmallDimensions, bucket_for_account}
use usagedb.Storage.Manifest.{SegmentMeta, rollup}
use usagedb.Ingest.Segments.{set_insert, lower, higher, insert_model}
use usagedb.Ingest.Flusher.{Files}
use usagedb.Rollup.{
  HourlyRollupKey_discrete, HourlyRollupRecord, Aggregates, rollup_key, add_to_record, finalize,
}

abbrev pub hour_ms : ℕ
hour_ms = 3600000

-- What a tick has read of the manifest, and what it calls.
pub record Run : Type 0 where
  pub blake3 : List ℕ → List ℕ
  pub to_json : SmallDimensions → String
  pub readable : String → Bool
  pub files : Files
  pub bucket_count : ℕ
  pub raw_segments : List SegmentMeta
  pub rollup_segments : List SegmentMeta

abbrev pub Builders : Type 0
Builders = List (ℕ × Aggregates)

abbrev pub Inputs : Type 0
Inputs = List (ℕ × List String)

-- The two maps of one turn of the loop.
pub record HourLoop : Type 0 where
  pub by_bucket : Builders
  pub inputs_by_bucket : Inputs

-- `entry(bucket).or_default()`.
unfoldable pub or_default : {A : Type 0} → Option (List A) → List A
or_default none = []
or_default (some xs) = xs

-- `BTreeSet::insert`.
unfoldable pub btree_insert : String → List String → List String
btree_insert s [] = s ∷ []
btree_insert s (t ∷ ts) =
    let later = t ∷ btree_insert s ts in
    if str_lt s t then s ∷ t ∷ ts else if str_lt t s then later else t ∷ ts

-- `already_rolled.contains(&(hour, bucket))`.
unfoldable pub rolls : ℤ → ℕ → SegmentMeta → Bool
rolls hour bucket s =
    leb_ℤ s.min_timestamp_ms hour && leb_ℤ hour s.min_timestamp_ms && s.bucket == bucket

unfoldable pub already_rolled : List SegmentMeta → ℤ → ℕ → Bool
unfolding rolls
already_rolled rollup_segments hour bucket = any (rolls hour bucket) rollup_segments

unfoldable pub bucket_of : Run → UsageEvent → ℕ
bucket_of run event = bucket_for_account run.blake3 event.account_id run.bucket_count

-- The guards of the loop over the events of a segment.
unfoldable pub in_hour : ℤ → UsageEvent → Bool
in_hour hour event =
    not (ltb_ℤ event.timestamp_ms hour || leb_ℤ (add64 hour (pos hour_ms)) event.timestamp_ms)

unfoldable pub takes : Run → ℤ → UsageEvent → Bool
unfolding in_hour already_rolled bucket_of
takes run hour event =
    in_hour hour event && not (already_rolled run.rollup_segments hour (bucket_of run event))

-- `RollupBuilder::process_event` on the builder of a bucket.
unfoldable pub process_event :
    (SmallDimensions → String) → UsageEvent → Option Aggregates → Aggregates
unfolding or_default
process_event to_json event builder =
    update_entries HourlyRollupKey_discrete (rollup_key to_json) (add_to_record to_json)
      (or_default builder) (event ∷ [])

unfoldable pub add_to_bucket : Run → String → UsageEvent → HourLoop → HourLoop
unfolding bucket_of process_event btree_insert or_default
add_to_bucket run segment_id event l =
    let bucket = bucket_of run event in
    record {
      by_bucket =
          insert ℕ_discrete bucket
            (process_event run.to_json event (get ℕ_discrete bucket l.by_bucket)) l.by_bucket;
      inputs_by_bucket =
          insert ℕ_discrete bucket
            (btree_insert segment_id (or_default (get ℕ_discrete bucket l.inputs_by_bucket)))
            l.inputs_by_bucket;
    }

unfoldable pub scan_rows : Run → ℤ → String → List UsageEvent → HourLoop → HourLoop
unfolding takes add_to_bucket
scan_rows run hour segment_id [] l = l
scan_rows run hour segment_id (event ∷ events) l =
    scan_rows run hour segment_id events
      (if takes run hour event then add_to_bucket run segment_id event l else l)

-- Whether the loop looks into a segment.
unfoldable pub overlaps_hour : ℤ → SegmentMeta → Bool
overlaps_hour hour s =
    not (ltb_ℤ s.max_timestamp_ms hour || leb_ℤ (add64 hour (pos hour_ms)) s.min_timestamp_ms)

-- `none` is the failure to read a file. A missing file is passed over.
unfoldable pub scan_segments : Run → ℤ → List SegmentMeta → HourLoop → Option HourLoop
unfolding overlaps_hour scan_rows
scan_segments run hour [] l = some l
scan_segments run hour (s ∷ segments) l = elim (overlaps_hour hour s) [
  | false ↦ scan_segments run hour segments l
  | true ↦ elim (get String_discrete s.segment_id run.files) [
    | none ↦ scan_segments run hour segments l
    | some rows ↦ elim (run.readable s.segment_id) [
      | false ↦ none
      | true ↦ scan_segments run hour segments (scan_rows run hour s.segment_id rows l)
    ]
  ]
]

-- A file of rollup records; `none` is a file that breaks off.
abbrev pub RollupFiles : Type 0
RollupFiles = List (String × Option (List HourlyRollupRecord))

pub data WriteOutcome : Type 0 where
  not_created broken_off finished : WriteOutcome

-- The fresh identifier, the checksum and the outcome of the writing of one segment.
pub record RollupAnswer : Type 0 where
  pub segment_id : String
  pub checksum : ℕ
  pub outcome : WriteOutcome

-- The variables of the loop in `build_rollup_segment_meta`.
pub record RollupMetaLoop : Type 0 where
  pub product_ids : List String
  pub meter_ids : List String
  pub model_ids : List String
  pub min_account : Option String
  pub max_account : Option String
  pub quantity_sum : ℤ

unfoldable pub scan_record : RollupMetaLoop → HourlyRollupRecord → RollupMetaLoop
unfolding set_insert insert_model lower higher
scan_record m r = record {
  product_ids = set_insert r.product_id m.product_ids;
  meter_ids = set_insert r.meter_id m.meter_ids;
  model_ids = insert_model r.model_id m.model_ids;
  min_account = lower r.account_id m.min_account;
  max_account = higher r.account_id m.max_account;
  quantity_sum = saturating_add m.quantity_sum r.quantity_sum;
}

unfoldable pub scan_records : RollupMetaLoop → List HourlyRollupRecord → RollupMetaLoop
unfolding scan_record
scan_records m [] = m
scan_records m (r ∷ rs) = scan_records (scan_record m r) rs

abbrev pub rollup_start : RollupMetaLoop
rollup_start = record {
  product_ids = [];
  meter_ids = [];
  model_ids = [];
  min_account = none;
  max_account = none;
  quantity_sum = pos 0;
}

unfoldable pub build_rollup_segment_meta :
    String → List HourlyRollupRecord → ℕ → ℕ → ℤ → ℤ → ℕ → List String → SegmentMeta
unfolding scan_records
build_rollup_segment_meta segment_id records bucket checksum min_ts max_ts row_count inputs =
    let m = scan_records rollup_start records in
    record {
      segment_id = segment_id;
      kind = rollup;
      min_timestamp_ms = min_ts;
      max_timestamp_ms = max_ts;
      bucket = bucket;
      row_count = row_count;
      min_account_id = m.min_account;
      max_account_id = m.max_account;
      product_ids = m.product_ids;
      meter_ids = m.meter_ids;
      model_ids = m.model_ids;
      quantity_sum = some m.quantity_sum;
      checksum = checksum;
      input_segment_ids = inputs;
    }

pub data RollupResult : Type 0 where
  rollup_written : SegmentMeta → RollupFiles → RollupResult
  rollup_failed : RollupFiles → RollupResult

unfoldable pub write_rollup_segment :
    RollupAnswer → List HourlyRollupRecord → ℕ → ℤ → ℤ → List String → RollupFiles → RollupResult
unfolding build_rollup_segment_meta
write_rollup_segment a records bucket hour_start hour_end inputs files = elim a.outcome [
  | not_created ↦ rollup_failed files
  | broken_off ↦ rollup_failed (insert String_discrete a.segment_id none files)
  | finished ↦
      rollup_written
        (build_rollup_segment_meta a.segment_id records bucket a.checksum hour_start
          (sub64 hour_end (pos 1)) (length records) inputs)
        (insert String_discrete a.segment_id (some records) files)
]

-- The new segments so far, in the order of their writing, and the files.
pub data HourResult : Type 0 where
  hour_rolled : List SegmentMeta → RollupFiles → HourResult
  hour_failed : RollupFiles → HourResult

unfoldable pub write_builders :
    (ℕ → RollupAnswer) → ℤ → Inputs → Builders → List SegmentMeta → RollupFiles → HourResult
unfolding finalize or_default write_rollup_segment
write_builders answer hour inputs [] new_segments files = hour_rolled new_segments files
write_builders answer hour inputs ((bucket, builder) ∷ rest) new_segments files =
    elim (finalize builder) [
      | [] ↦ write_builders answer hour inputs rest new_segments files
      | r ∷ rs ↦
          elim (write_rollup_segment (answer (length new_segments)) (r ∷ rs) bucket hour
            (add64 hour (pos hour_ms)) (or_default (get ℕ_discrete bucket inputs)) files) [
              | rollup_failed files' ↦ hour_failed files'
              | rollup_written meta files' ↦
                  write_builders answer hour (remove ℕ_discrete bucket inputs) rest
                    (new_segments ++ meta ∷ []) files'
            ]
    ]

-- One turn of the loop.
unfoldable pub roll_hour :
    Run → (ℕ → RollupAnswer) → ℤ → List SegmentMeta → RollupFiles → HourResult
unfolding scan_segments write_builders
roll_hour run answer hour new_segments files =
    elim (scan_segments run hour run.raw_segments
      (record { by_bucket = []; inputs_by_bucket = [] })) [
        | none ↦ hour_failed files
        | some l ↦ write_builders answer hour l.inputs_by_bucket l.by_bucket new_segments files
      ]

pub data HoursResult : Type 0 where
  hours_rolled : List SegmentMeta → ℕ → RollupFiles → HoursResult
  hours_failed : RollupFiles → HoursResult
  out_of_fuel : HoursResult

-- `while hour < target_hour`, with the number of hours so far.
unfoldable pub roll_hours :
    ℕ → Run → (ℕ → RollupAnswer) → ℤ → ℤ → List SegmentMeta → ℕ → RollupFiles → HoursResult
unfolding roll_hour
roll_hours zero run answer target hour new_segments processed files =
    if ltb_ℤ hour target then out_of_fuel else hours_rolled new_segments processed files
roll_hours (suc fuel) run answer target hour new_segments processed files =
    elim (ltb_ℤ hour target) [
      | false ↦ hours_rolled new_segments processed files
      | true ↦ elim (roll_hour run answer hour new_segments files) [
        | hour_failed files' ↦ hours_failed files'
        | hour_rolled new' files' ↦
            roll_hours fuel run answer target (add64 hour (pos hour_ms)) new' (suc processed) files'
      ]
    ]
