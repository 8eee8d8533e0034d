-- ===== src/Ingest/Wal.antt =====
-- src/ingest/wal.rs: the write-ahead log.
-- A file is its lines at two depths: those that an fsync has made durable and those that the kernel
-- has. A third depth is the userspace buffer of the open file, which a full buffer may pass on early;
-- so a line in the buffer may also reach the kernel. A line that a failure or a crash has cut short stays
-- in front of the next one. Every call into the operating system takes its answer as an argument. The JSON text of an event (serde_json) is a parameter.
pub mod Files
use usagedb.Prelude.{
  ℕ, suc, ◌+◌, ◌≡◌, Bool, true, false, Option, none, some, List, [], ◌∷◌, ◌++◌, String, ℕ_discrete,
  ltb, leb, if◌then◌else◌, retain,
}
use usagedb.Prelude.Map.{get, insert}
use usagedb.Model.{UsageEvent}

-- What one `writeln` leaves: a line with its newline, or a part of it, not empty, without one.
pub record Fragment : Type 0 where
  pub text : String
  pub ended : Bool

abbrev pub whole : String → Fragment
whole line = record { text = line; ended = true }

pub record WalFile : Type 0 where
  pub durable : List Fragment
  pub cached : List Fragment

abbrev pub empty_file : WalFile
empty_file = record { durable = []; cached = [] }

abbrev pub Dir : Type 0
Dir = List (ℕ × WalFile)

-- `writer_id` is the number of the file behind `file`; it differs from `active_id` only after a
-- `rotate` that could not open the next file.
pub record Wal : Type 0 where
  pub dir : Dir
  pub active_id : ℕ
  pub writer_id : ℕ
  pub buffer : List Fragment

unfoldable pub file_or_empty : Option WalFile → WalFile
file_or_empty none = empty_file
file_or_empty (some f) = f

-- The file with a number; a missing file has no lines.
unfoldable pub file_at : ℕ → Dir → WalFile
unfolding file_or_empty
file_at id dir = file_or_empty (get ℕ_discrete id dir)

-- `OpenOptions::create(true).append(true)`: an old file keeps its lines.
unfoldable pub create : ℕ → Dir → Dir
unfolding file_at
create id dir = insert ℕ_discrete id (file_at id dir) dir

-- The highest number above the last sealed one, over the directory's entries.
unfoldable pub highest_unsealed : ℕ → Dir → Option ℕ → Option ℕ
highest_unsealed last_sealed_id [] highest = highest
highest_unsealed last_sealed_id ((id, _) ∷ dir) highest = highest_unsealed last_sealed_id dir (
    if ltb last_sealed_id id
    then elim highest [ none ↦ some id | some h ↦ some (if leb h id then id else h) ]
    else highest)

unfoldable pub open_log : Dir → ℕ → Wal
unfolding highest_unsealed create
open_log dir last_sealed_id =
    let active_id : ℕ = elim (highest_unsealed last_sealed_id dir none) [
      | none ↦ last_sealed_id + 1
      | some h ↦ h
    ] in
    record { dir = create active_id dir; active_id = active_id; writer_id = active_id; buffer = [] }

unfoldable pub write_line : Wal → Fragment → Wal
write_line wal line = record wal { buffer = wal.buffer ++ line ∷ [] }

-- A `writeln` succeeds, or fails before or after a part of the line is in the buffer.
pub data LineAnswer : Type 0 where
  line_written line_failed : LineAnswer
  line_torn : String → LineAnswer

-- `written i` is the answer of the i-th `writeln`. The lines before a failure stay written.
unfoldable pub append_batch :
    (UsageEvent → Option String) → (ℕ → LineAnswer) → ℕ → List UsageEvent → Wal → Bool × Wal
unfolding write_line
append_batch to_json written i [] wal = (true, wal)
append_batch to_json written i (event ∷ events) wal = elim (to_json event) [
  | none ↦ (false, wal)
  | some json ↦ elim (written i) [
    | line_failed ↦ (false, wal)
    | line_torn part ↦ (false, write_line wal (record { text = part; ended = false }))
    | line_written ↦ append_batch to_json written (suc i) events (write_line wal (whole json))
  ]
]

-- `BufWriter::flush`: the buffer goes to the kernel.
unfoldable pub flush_buffer : Bool → Wal → Bool × Wal
unfolding file_at
flush_buffer false wal = (false, wal)
flush_buffer true wal =
    let f = file_at wal.writer_id wal.dir in
    (
      true,
      record wal {
        dir =
            insert ℕ_discrete wal.writer_id (record f { cached = f.cached ++ wal.buffer }) wal.dir;
        buffer = [];
      },
    )

-- `sync_data`: what the kernel has becomes durable.
unfoldable pub sync_data : Bool → Wal → Bool × Wal
unfolding file_at
sync_data false wal = (false, wal)
sync_data true wal =
    let f = file_at wal.writer_id wal.dir in
    (
      true,
      record wal {
        dir =
            insert ℕ_discrete wal.writer_id
              (record { durable = f.durable ++ f.cached; cached = [] }) wal.dir;
      },
    )

unfoldable pub sync : Bool → Bool → Wal → Bool × Wal
sync flushed synced wal =
    let (ok, wal1) = flush_buffer flushed wal in if ok then sync_data synced wal1 else (false, wal1)

-- The last step of `rotate`; the counter has been raised before the next file is opened.
unfoldable pub open_next : Bool → Wal → Option ℕ × Wal
unfolding create
open_next false wal = (none, record wal { active_id = wal.active_id + 1 })
open_next true wal = (
  some wal.active_id,
  record {
    dir = create (wal.active_id + 1) wal.dir;
    active_id = wal.active_id + 1;
    writer_id = wal.active_id + 1;
    buffer = [];
  },
)

unfoldable pub rotate : Bool → Bool → Bool → Wal → Option ℕ × Wal
rotate flushed synced opened wal =
    let (ok, wal1) = sync flushed synced wal in if ok then open_next opened wal1 else (none, wal1)

-- `ids.sort()`.
unfoldable pub insert_sorted : ℕ → List ℕ → List ℕ
insert_sorted n [] = n ∷ []
insert_sorted n (m ∷ ms) = let rest = insert_sorted n ms in if leb n m then n ∷ m ∷ ms else m ∷ rest

unfoldable pub list_files_after : Dir → ℕ → List ℕ
unfolding insert_sorted
list_files_after [] last_sealed_id = []
list_files_after ((id, _) ∷ dir) last_sealed_id =
    let ids = list_files_after dir last_sealed_id in
    if ltb last_sealed_id id then insert_sorted id ids else ids

unfoldable pub delete_files_through : Dir → ℕ → Dir
delete_files_through dir up_to_id = retain (λ f. ltb up_to_id f.0) dir

unfoldable pub concat : String → String → String
concat String.[] t = t
concat (String.◌∷◌ c s) t = String.◌∷◌ c (concat s t)

-- A part in front of the next line, or alone at the end of the file.
unfoldable pub join_next : String → List String → List String
unfolding concat
join_next part [] = part ∷ []
join_next part (line ∷ lines) = concat part line ∷ lines

-- `BufRead::lines`. A part that ends inside a character, which makes its line unreadable, counts as a text
-- that does not parse.
unfoldable pub file_lines : List Fragment → List String
unfolding join_next
file_lines [] = []
file_lines (f ∷ fs) =
    let rest = file_lines fs in if f.ended then f.text ∷ rest else join_next f.text rest

-- The lines that do not parse are skipped. `trimmed_empty` says which lines are blank.
unfoldable pub replay_lines :
    (String → Option UsageEvent) → (String → Bool) → List String → List UsageEvent
replay_lines from_json trimmed_empty [] = []
replay_lines from_json trimmed_empty (line ∷ lines) =
    let rest = replay_lines from_json trimmed_empty lines in
    if trimmed_empty line
    then rest
    else elim (from_json line) [ none ↦ rest | some event ↦ event ∷ rest ]

-- What a restart reads of a file is what is durable, and what the kernel still had written back.
unfoldable pub replay_file :
    (String → Option UsageEvent) → (String → Bool) → Dir → ℕ → List UsageEvent
unfolding replay_lines file_lines file_at
replay_file from_json trimmed_empty dir id =
    let f = file_at id dir in
    replay_lines from_json trimmed_empty (file_lines (f.durable ++ f.cached))
