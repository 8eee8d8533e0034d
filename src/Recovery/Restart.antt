-- ===== src/Recovery/Restart.antt =====
-- src/runtime/recovery.rs: what the memtable and the cache hold after a restart.
use usagedb.Prelude.{
  ℕ, ◌≡◌, refl, subst, Option, none, some, List, [], ◌∷◌, ltb, Bool-cases, Option-cases, inl, inr,
}
use usagedb.Prelude.Int.{ℤ}
use usagedb.Model.{UsageEvent}
use usagedb.Storage.Manifest.{Manifest, SegmentMeta, default_manifest}
use usagedb.Storage.Generations.{LoadResult, absent, corrupt, io_error, found, load}
use usagedb.Ingest.Dedupe.{HotDedupe}
use usagedb.Ingest.Memtable
use usagedb.Ingest.Wal.{Dir, list_files_after, delete_files_through}
use usagedb.Ingest.Wal.Files.{list_files_after-delete}
use usagedb.Ingest.Handler.{Env, compute_event_hashes}
use usagedb.Recovery.{
  DbRoot, RecoveryAnswers, RecoveryResult, Rebuilt, replay_wal, rebuild_dedupe, cutoff_of,
  finish_recovery, remove_tmp, clean_tmp, clean_wal, empty_rebuilt, recover_wal, recover_clean,
  recover_from, run_startup_recovery,
}
use usagedb.Recovery.Known.{rebuild_dedupe-keeps}
use usagedb.Recovery.Replay.{
  AllKnown, all_events, Replayed, Replayed-same, replay_files-Replayed, list_files_after-above,
  all_events-delete,
}

-- The events of the log that are not sealed.
abbrev pub unsealed_events : RecoveryAnswers → Dir → ℕ → List UsageEvent
unsealed_events a dir n = all_events a.from_json a.blank dir (list_files_after dir n)

unsealed-delete :
    (a : RecoveryAnswers) (dir : Dir) (n : ℕ)
    → unsealed_events a (delete_files_through dir n) n ≡ unsealed_events a dir n
unsealed-delete a dir n = rw (list_files_after-delete dir n) (
    all_events-delete a.from_json a.blank dir n (list_files_after dir n)
      (list_files_after-above dir n))

-- What a restart yields.
abbrev pub Recovered : Env → RecoveryAnswers → Dir → RecoveryResult → Type 0
Recovered env a dir r =
    (r.memtable.events ≡ unsealed_events a dir r.manifest.last_sealed_wal_id)
    × AllKnown env r.dedupe r.memtable.events

abbrev RecoveredIf : Env → RecoveryAnswers → Dir → Option RecoveryResult → Type 0
RecoveredIf env a dir none = Unit
RecoveredIf env a dir (some r) = Recovered env a dir r

rebuild-AllKnown :
    (env : Env) (a : RecoveryAnswers) (db : DbRoot) (cutoff : ℤ) (segments : List SegmentMeta)
    (d : HotDedupe) (es : List UsageEvent)
    → AllKnown env d es
    → AllKnown env (rebuild_dedupe env a db cutoff segments d) es
rebuild-AllKnown env a db cutoff segments d [] k = tt
rebuild-AllKnown env a db cutoff segments d (e ∷ es) k = (
  rebuild_dedupe-keeps env a db cutoff segments (compute_event_hashes env e).0 d k.0,
  rebuild-AllKnown env a db cutoff segments d es k.1,
)

finish-RecoveredIf :
    (env : Env) (a : RecoveryAnswers) (m : Manifest) (db : DbRoot) (dir : Dir) (r : Option Rebuilt)
    → Replayed env (unsealed_events a dir m.last_sealed_wal_id) r
    → RecoveredIf env a dir (finish_recovery env a m db r)
unfolding finish_recovery
finish-RecoveredIf env a m db dir none k = tt
finish-RecoveredIf env a m db dir (some r) k =
    (k.0, rebuild-AllKnown env a db (cutoff_of a) m.raw_segments r.dedupe r.memtable.events k.1)

replay_wal-Replayed :
    (env : Env) (a : RecoveryAnswers) (capacity n : ℕ) (dir : Dir)
    → Replayed env
        (unsealed_events a dir n)
        (replay_wal env a n (some dir) (empty_rebuilt capacity))
unfolding replay_wal Memtable.new
replay_wal-Replayed env a capacity n dir = elim (Bool-cases a.wal_listed) [
  | inr unlisted ↦ rw unlisted tt
  | inl listed ↦
      rw listed
        (replay_files-Replayed env a dir (list_files_after dir n) (empty_rebuilt capacity) tt)
]

recover_wal-RecoveredIf :
    (env : Env) (a : RecoveryAnswers) (capacity : ℕ) (m : Manifest) (db : DbRoot) (dir dir' : Dir)
    → db.wal_dir ≡ some dir'
    → unsealed_events a dir' m.last_sealed_wal_id ≡ unsealed_events a dir m.last_sealed_wal_id
    → RecoveredIf env a dir (recover_wal env a capacity m (some db))
unfolding recover_wal
recover_wal-RecoveredIf env a capacity m db dir dir' h same = rw h (
    finish-RecoveredIf env a m db dir
      (replay_wal env a m.last_sealed_wal_id (some dir') (empty_rebuilt capacity))
      (Replayed-same env (unsealed_events a dir' m.last_sealed_wal_id)
        (unsealed_events a dir m.last_sealed_wal_id)
        (replay_wal env a m.last_sealed_wal_id (some dir') (empty_rebuilt capacity)) same
        (replay_wal-Replayed env a capacity m.last_sealed_wal_id dir')))

recover_clean-RecoveredIf :
    (env : Env) (a : RecoveryAnswers) (capacity : ℕ) (m : Manifest) (db : DbRoot) (dir : Dir)
    → db.wal_dir ≡ some dir
    → RecoveredIf env a dir (recover_clean env a capacity m (some db))
unfolding recover_clean clean_wal
recover_clean-RecoveredIf env a capacity m db dir h =
    let n = m.last_sealed_wal_id in
    elim (Bool-cases (ltb 0 n)) [
      | inr fresh ↦
          rw (recover_clean, clean_wal, h, fresh)
            (recover_wal-RecoveredIf env a capacity m db dir dir h refl)
      | inl sealed ↦ elim (Bool-cases a.wal_deleted) [
        | inr failed ↦ rw (recover_clean, clean_wal, h, sealed, failed) tt
        | inl deleted ↦
            rw (recover_clean, clean_wal, h, sealed, deleted)
              (recover_wal-RecoveredIf env a capacity m
                (record db { wal_dir = some (delete_files_through dir n) }) dir
                (delete_files_through dir n) refl (unsealed-delete a dir n))
      ]
    ]

nothing :
    (env : Env) (a : RecoveryAnswers) (capacity : ℕ) (m : Manifest) (dir : Dir)
    → RecoveredIf env a dir (recover_clean env a capacity m none)
unfolding recover_clean
nothing env a capacity m dir = tt

cleaned-RecoveredIf :
    (env : Env) (a : RecoveryAnswers) (capacity : ℕ) (m : Manifest) (db : DbRoot) (dir : Dir)
    → db.wal_dir ≡ some dir
    → RecoveredIf env a dir (recover_clean env a capacity m (clean_tmp a db))
unfolding clean_tmp recover_clean
cleaned-RecoveredIf env a capacity m db dir h = elim (Option-cases db.tmp) [
  | inl no_tmp ↦ rw (clean_tmp, no_tmp) (recover_clean-RecoveredIf env a capacity m db dir h)
  | inr (files, tmp) ↦ elim (Bool-cases a.tmp_read) [
    | inr unread ↦ rw (clean_tmp, tmp, unread) (nothing env a capacity m dir)
    | inl read ↦
        rw (clean_tmp, tmp, read)
          (recover_clean-RecoveredIf env a capacity m
            (record db { tmp = some (remove_tmp a.tmp_removed files) }) dir h)
  ]
]

recover_from-RecoveredIf :
    (env : Env) (a : RecoveryAnswers) (capacity : ℕ) (db : DbRoot) (dir : Dir) (l : LoadResult)
    → db.wal_dir ≡ some dir
    → RecoveredIf env a dir (recover_from env a capacity db l)
unfolding recover_from
recover_from-RecoveredIf env a capacity db dir absent h =
    cleaned-RecoveredIf env a capacity default_manifest db dir h
recover_from-RecoveredIf env a capacity db dir corrupt h = tt
recover_from-RecoveredIf env a capacity db dir io_error h = tt
recover_from-RecoveredIf env a capacity db dir (found m) h =
    cleaned-RecoveredIf env a capacity m db dir h

-- After a restart that succeeds the memtable holds just the events of the log's files that are not
-- sealed, in the order of the files and of their lines, and the cache knows each of them. The files that
-- the restart deletes are not among these.
pub run_startup_recovery-Recovered :
    (env : Env) (a : RecoveryAnswers) (capacity : ℕ) (db : DbRoot) (dir : Dir) (r : RecoveryResult)
    → db.wal_dir ≡ some dir
    → run_startup_recovery env a capacity db ≡ some r
    → Recovered env a dir r
unfolding run_startup_recovery
run_startup_recovery-Recovered env a capacity db dir r h k =
    let (loaded, dir') = load a.saves db.manifest_dir in
    subst (RecoveredIf env a dir) k
      (recover_from-RecoveredIf env a capacity (record db { manifest_dir = dir' }) dir loaded h)
