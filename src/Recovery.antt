-- ===== src/Recovery.antt =====
-- src/runtime/recovery.rs: `run_startup_recovery`.
-- The texts of the log (serde_json), the hash and the clock are parameters, and so are the answers of the
-- operating system. A sidecar is its entries; `sidecar_ok` says whether it is read without an error.
pub mod Known
pub mod Replay
pub mod Restart
pub mod Sidecars
pub mod Acked
pub mod Torn
use usagedb.Prelude.{
  ℕ, ◌+◌, Bool, true, false, Option, none, some, List, [], ◌∷◌, ◌++◌, map, String, ltb, length,
  take, if◌then◌else◌,
}
use usagedb.Prelude.Int.{ℤ, ltb_ℤ, saturating_sub64}
use usagedb.Prelude.Text.{String_discrete}
use usagedb.Prelude.Map.{get}
use usagedb.Model.{UsageEvent}
use usagedb.Storage.Manifest.{Manifest, SegmentMeta, default_manifest}
use usagedb.Storage.Generations.{
  ManifestDir, SaveAnswers, LoadResult, absent, corrupt, io_error, found, load,
}
use usagedb.Ingest.Dedupe
use usagedb.Ingest.Dedupe.{HotDedupe, insert_known, default_ttl_ms}
use usagedb.Ingest.Memtable
use usagedb.Ingest.Memtable.{Memtable}
use usagedb.Ingest.Wal.{Dir, list_files_after, replay_file, delete_files_through}
use usagedb.Ingest.Handler.{Env, compute_event_hashes}
use usagedb.Ingest.Flusher.{Files}
use usagedb.Compact.{SidecarEntry}

-- What lies in the root directory. `none` is a directory that does not exist.
pub record DbRoot : Type 0 where
  pub manifest_dir : ManifestDir
  pub tmp : Option (List String)
  pub wal_dir : Option Dir
  pub files : Files
  pub sidecars : List (String × List SidecarEntry)

-- The parser of a line and the test for a blank one, and the answers. `opened` and `breaks_after` are
-- about segment files: whether one can be opened, and after how many rows an error stops its reading.
pub record RecoveryAnswers : Type 0 where
  pub from_json : String → Option UsageEvent
  pub blank : String → Bool
  pub saves : SaveAnswers
  pub tmp_read : Bool
  pub tmp_removed : String → Bool
  pub wal_deleted : Bool
  pub wal_listed : Bool
  pub wal_read : ℕ → Bool
  pub sidecar_ok : String → Bool
  pub opened : String → Bool
  pub breaks_after : String → Option ℕ
  pub clock : ℕ → ℤ
  pub now : ℤ

pub record RecoveryResult : Type 0 where
  pub manifest : Manifest
  pub dedupe : HotDedupe
  pub memtable : Memtable

-- The cache and the memtable under construction.
pub record Rebuilt : Type 0 where
  pub dedupe : HotDedupe
  pub memtable : Memtable

-- One turn of the innermost loop of the replay. The clock is read by `Memtable::insert`.
unfoldable pub register : Env → UsageEvent → HotDedupe → HotDedupe
unfolding compute_event_hashes insert_known
register env event dedupe =
    let (id_hash, payload_hash) = compute_event_hashes env event in
    insert_known id_hash payload_hash event.ingested_at_ms dedupe

unfoldable pub recover_event : Env → (ℕ → ℤ) → UsageEvent → Rebuilt → Rebuilt
unfolding register
recover_event env clock event r = record {
  dedupe = register env event r.dedupe;
  memtable =
      Memtable.insert env.event_base_size (clock (length r.memtable.events)) event r.memtable;
}

unfoldable pub recover_events : Env → (ℕ → ℤ) → List UsageEvent → Rebuilt → Rebuilt
unfolding recover_event
recover_events env clock [] r = r
recover_events env clock (event ∷ events) r =
    recover_events env clock events (recover_event env clock event r)

-- `none` is a file that cannot be read.
unfoldable pub replay_files : Env → RecoveryAnswers → Dir → List ℕ → Rebuilt → Option Rebuilt
unfolding recover_events replay_file
replay_files env a dir [] r = some r
replay_files env a dir (id ∷ ids) r = elim (a.wal_read id) [
  | false ↦ none
  | true ↦
      replay_files env a dir ids
        (recover_events env a.clock (replay_file a.from_json a.blank dir id) r)
]

unfoldable pub replay_wal : Env → RecoveryAnswers → ℕ → Option Dir → Rebuilt → Option Rebuilt
unfolding replay_files list_files_after
replay_wal env a last_sealed none r = some r
replay_wal env a last_sealed (some dir) r = elim a.wal_listed [
  | false ↦ none
  | true ↦ replay_files env a dir (list_files_after dir last_sealed) r
]

-- The segments.
unfoldable pub insert_entries : List SidecarEntry → HotDedupe → HotDedupe
unfolding insert_known
insert_entries [] dedupe = dedupe
insert_entries (((id_hash, payload_hash), ingested_at_ms) ∷ entries) dedupe =
    insert_entries entries (insert_known id_hash payload_hash ingested_at_ms dedupe)

unfoldable pub register_all : Env → List UsageEvent → HotDedupe → HotDedupe
unfolding register
register_all env [] dedupe = dedupe
register_all env (event ∷ events) dedupe = register_all env events (register env event dedupe)

unfoldable pub rows_before : Option ℕ → List UsageEvent → List UsageEvent
rows_before none rows = rows
rows_before (some n) rows = take n rows

-- The slow path: a file that cannot be opened registers nothing.
unfoldable pub scan_segment :
    Env → RecoveryAnswers → String → List UsageEvent → HotDedupe → HotDedupe
unfolding register_all rows_before
scan_segment env a id rows dedupe =
    if a.opened id then register_all env (rows_before (a.breaks_after id) rows) dedupe else dedupe

-- A missing sidecar or a broken one leaves the slow path.
unfoldable pub read_sidecar :
    (String → Bool) → List (String × List SidecarEntry) → String → Option (List SidecarEntry)
read_sidecar ok sidecars id = if ok id then get String_discrete id sidecars else none

unfoldable pub register_segment :
    Env → RecoveryAnswers → DbRoot → String → Option (List UsageEvent) → HotDedupe → HotDedupe
unfolding read_sidecar insert_entries scan_segment
register_segment env a db id none dedupe = dedupe
register_segment env a db id (some rows) dedupe = elim (read_sidecar a.sidecar_ok db.sidecars id) [
  | some entries ↦ insert_entries entries dedupe
  | none ↦ scan_segment env a id rows dedupe
]

unfoldable pub rebuild_dedupe :
    Env → RecoveryAnswers → DbRoot → ℤ → List SegmentMeta → HotDedupe → HotDedupe
unfolding register_segment
rebuild_dedupe env a db cutoff [] dedupe = dedupe
rebuild_dedupe env a db cutoff (s ∷ segments) dedupe = elim (ltb_ℤ s.max_timestamp_ms cutoff) [
  | true ↦ rebuild_dedupe env a db cutoff segments dedupe
  | false ↦
      rebuild_dedupe env a db cutoff segments
        (register_segment env a db s.segment_id (get String_discrete s.segment_id db.files) dedupe)
]

unfoldable pub cutoff_of : RecoveryAnswers → ℤ
unfolding saturating_sub64
cutoff_of a = saturating_sub64 a.now default_ttl_ms

unfoldable pub finish_recovery :
    Env → RecoveryAnswers → Manifest → DbRoot → Option Rebuilt → Option RecoveryResult
unfolding rebuild_dedupe cutoff_of
finish_recovery env a manifest db none = none
finish_recovery env a manifest db (some r) = some (record {
  manifest = manifest;
  dedupe = rebuild_dedupe env a db (cutoff_of a) manifest.raw_segments r.dedupe;
  memtable = r.memtable;
})

-- The removal of a file of the directory for temporary files may fail without consequence.
unfoldable pub remove_tmp : (String → Bool) → List String → List String
remove_tmp removed [] = []
remove_tmp removed (file ∷ files) =
    let rest = remove_tmp removed files in if removed file then rest else file ∷ rest

unfoldable pub clean_tmp : RecoveryAnswers → DbRoot → Option DbRoot
unfolding remove_tmp
clean_tmp a db = elim db.tmp [
  | none ↦ some db
  | some files ↦ elim a.tmp_read [
    | false ↦ none
    | true ↦ some (record db { tmp = some (remove_tmp a.tmp_removed files) })
  ]
]

-- The files of the log that are sealed.
unfoldable pub clean_wal : RecoveryAnswers → ℕ → DbRoot → Option DbRoot
unfolding delete_files_through
clean_wal a last_sealed db = elim db.wal_dir [
  | none ↦ some db
  | some dir ↦
      if ltb 0 last_sealed
      then (if a.wal_deleted
          then some (record db { wal_dir = some (delete_files_through dir last_sealed) })
          else none)
      else some db
]

abbrev pub empty_rebuilt : ℕ → Rebuilt
empty_rebuilt capacity = record { dedupe = Dedupe.new capacity; memtable = Memtable.new }

unfoldable pub recover_wal :
    Env → RecoveryAnswers → ℕ → Manifest → Option DbRoot → Option RecoveryResult
unfolding replay_wal finish_recovery
recover_wal env a capacity m none = none
recover_wal env a capacity m (some db) =
    finish_recovery env a m db
      (replay_wal env a m.last_sealed_wal_id db.wal_dir (empty_rebuilt capacity))

unfoldable pub recover_clean :
    Env → RecoveryAnswers → ℕ → Manifest → Option DbRoot → Option RecoveryResult
unfolding clean_wal recover_wal
recover_clean env a capacity m none = none
recover_clean env a capacity m (some db) =
    recover_wal env a capacity m (clean_wal a m.last_sealed_wal_id db)

unfoldable pub recover_from :
    Env → RecoveryAnswers → ℕ → DbRoot → LoadResult → Option RecoveryResult
unfolding clean_tmp recover_clean
recover_from env a capacity db absent =
    recover_clean env a capacity default_manifest (clean_tmp a db)
recover_from env a capacity db corrupt = none
recover_from env a capacity db io_error = none
recover_from env a capacity db (found m) = recover_clean env a capacity m (clean_tmp a db)

-- `none` is an error.
unfoldable pub run_startup_recovery : Env → RecoveryAnswers → ℕ → DbRoot → Option RecoveryResult
unfolding recover_from
run_startup_recovery env a capacity db =
    let (loaded, dir') = load a.saves db.manifest_dir in
    recover_from env a capacity (record db { manifest_dir = dir' }) loaded
