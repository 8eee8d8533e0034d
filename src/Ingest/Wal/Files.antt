-- ===== src/Ingest/Wal/Files.antt =====
-- What reaches the disk, which files a restart replays, and which are deleted.
use usagedb.Prelude.{
  ℕ, suc, ◌≡◌, ◌↔◌, ◌≢◌, ◌<◌, ◌≤◌, refl, ap, ◌⊎◌, inl, inr, Bool, true, false, Option, none, some,
  List, [], ◌∷◌, ◌++◌, String, ℕ_discrete, ite, ltb, if◌then◌else◌, retain, Elem, All, append_assoc,
  append-nil, arith, Option-cases, Bool-cases, ◌∙◌,
}
use usagedb.Prelude.Map.{get, insert, get-insert}
use usagedb.Model.{UsageEvent}
use usagedb.Ingest.Wal.{
  create, Wal, WalFile, Dir, file_at, append_batch, flush_buffer, sync_data, sync, list_files_after,
  delete_files_through, replay_lines, insert_sorted, write_line, Fragment, whole, LineAnswer,
  join_next, file_lines,
}

-- The JSON lines of a batch, if every event has one.
unfoldable pub lines_of : (UsageEvent → Option String) → List UsageEvent → List Fragment
lines_of to_json [] = []
lines_of to_json (e ∷ es) = elim (to_json e) [
  | none ↦ lines_of to_json es
  | some json ↦ whole json ∷ lines_of to_json es
]

module _ (to_json : UsageEvent → Option String) (written : ℕ → LineAnswer) where
  -- A batch that is appended without an error adds exactly its lines to the buffer.
  pub append_batch_buffer :
      (i : ℕ) (es : List UsageEvent) (wal wal' : Wal)
      → append_batch to_json written i es wal ≡ (true, wal')
      → wal' ≡ record wal { buffer = wal.buffer ++ lines_of to_json es }
  unfolding append_batch lines_of
  append_batch_buffer i [] wal wal' h = ground (arith, append-nil wal.buffer)
  append_batch_buffer i (e ∷ es) wal wal' h = elim (Option-cases (to_json e)) [
    | inl none_json ↦ ground arith
    | inr (json, has) ↦ ground (
      arith,
      append_batch_buffer (suc i) es (write_line wal (whole json)) wal',
      append_assoc wal.buffer (whole json ∷ []) (lines_of to_json es),
    )
  ]

pub file_at-insert :
    (w id : ℕ) (f : WalFile) (dir : Dir)
    → file_at id (insert ℕ_discrete w f dir) ≡ ite (ℕ_discrete w id) f (file_at id dir)
unfolding file_at
file_at-insert w id f dir = ground (arith, get-insert ℕ_discrete w id f dir)

-- Opening a file does not change what any file holds.
pub file_at-create : (w id : ℕ) (dir : Dir) → file_at id (create w dir) ≡ file_at id dir
unfolding create
file_at-create w id dir = rw (file_at-insert w id (file_at w dir) dir) (ground arith)

ite_self : {A : Type 0} (w : ℕ) (a b : A) → ite (ℕ_discrete w w) a b ≡ a
ite_self w a b = ground arith

ite_other : {A : Type 0} (id w : ℕ) → id ≢ w → (a b : A) → ite (ℕ_discrete w id) a b ≡ b
ite_other id w h a b = ground arith

-- A `sync` that succeeds leaves nothing in the buffer or in the kernel: every line of the open file is
-- durable, in the order of the writes. The other files stay as they were.
pub sync_durable :
    (flushed synced : Bool) (wal wal' : Wal)
    → sync flushed synced wal ≡ (true, wal')
    → (let f = file_at wal.writer_id wal.dir in
        file_at wal.writer_id wal'.dir
        ≡ record { durable = f.durable ++ (f.cached ++ wal.buffer); cached = [] })
      × (wal'.buffer ≡ [])
      × ((id : ℕ) → id ≢ wal.writer_id → file_at id wal'.dir ≡ file_at id wal.dir)
unfolding sync flush_buffer sync_data
sync_durable false synced wal wal' h = ground arith
sync_durable true false wal wal' h = ground arith
sync_durable true true wal wal' h = rw (← ap (λ (r : Bool × Wal). r.1) h) (
  simp (file_at-insert, ite_self) refl,
  refl,
  λ id other. simp (file_at-insert, ite_other id wal.writer_id other) refl,
)

pub sync_ids :
    (flushed synced : Bool) (wal : Wal)
    → ((sync flushed synced wal).1.writer_id ≡ wal.writer_id)
      × ((sync flushed synced wal).1.active_id ≡ wal.active_id)
unfolding sync flush_buffer sync_data
sync_ids false synced wal = (refl, refl)
sync_ids true false wal = (refl, refl)
sync_ids true true wal = (refl, refl)

-- A `sync` that fails loses no durable line.
pub sync_keeps :
    (flushed synced : Bool) (wal : Wal) (lines : List Fragment)
    → wal.buffer ≡ []
    → file_at wal.writer_id wal.dir ≡ record { durable = lines; cached = [] }
    → file_at wal.writer_id (sync flushed synced wal).1.dir
      ≡ record { durable = lines; cached = [] }
unfolding sync flush_buffer sync_data
sync_keeps false synced wal lines empty h = h
sync_keeps true false wal lines empty h = simp (file_at-insert, ite_self, h, empty) refl
sync_keeps true true wal lines empty h = simp (file_at-insert, ite_self, h, empty, append-nil) refl

-- Replay, given the text of an event and its parser.
module _ (to_json : UsageEvent → Option String) (from_json : String → Option UsageEvent)
    (blank : String → Bool) where
  -- What the JSON library promises: the text of an event parses back to it and is not blank.
  abbrev pub HasJson : UsageEvent → Type 0
  HasJson e =
      (json : String) × (to_json e ≡ some json) × (from_json json ≡ some e) × (blank json ≡ false)

  -- The replay of the lines of a list of events gives the events, if the text of each parses back to it
  -- and is not blank.
  pub replay-lines_of :
      (es : List UsageEvent)
      → All HasJson es
      → replay_lines from_json blank (file_lines (lines_of to_json es)) ≡ es
  unfolding replay_lines file_lines lines_of
  replay-lines_of [] h = refl
  replay-lines_of (e ∷ es) h = ground (arith, replay-lines_of es h.1)

  pub replay-append :
      (xs ys : List String)
      → replay_lines from_json blank (xs ++ ys)
        ≡ replay_lines from_json blank xs ++ replay_lines from_json blank ys
  unfolding replay_lines
  replay-append [] ys = refl
  replay-append (x ∷ xs) ys = ground (arith, replay-append xs ys)

-- The last fragment, if there is one, has its newline.
abbrev pub EndsWhole : List Fragment → Type 0
EndsWhole [] = Unit {0}
EndsWhole (f ∷ []) = f.ended ≡ true
EndsWhole (f ∷ g ∷ fs) = EndsWhole (g ∷ fs)

-- Something is read of a file that is not empty, and what is behind its first line stays.
abbrev NotEmpty : List String → Type 0
NotEmpty [] = ⊥
NotEmpty (l ∷ ls) = Unit {0}

join_next-NotEmpty : (part : String) (ls : List String) → NotEmpty (join_next part ls)
unfolding join_next
join_next-NotEmpty part [] = tt
join_next-NotEmpty part (l ∷ ls) = tt

file_lines-NotEmpty : (f : Fragment) (fs : List Fragment) → NotEmpty (file_lines (f ∷ fs))
unfolding file_lines
file_lines-NotEmpty f fs = elim (Bool-cases f.ended) [
  | inl e ↦ rw e tt
  | inr e ↦ rw e (join_next-NotEmpty f.text (file_lines fs))
]

join_next-append :
    (part : String) (ls ms : List String)
    → NotEmpty ls
    → join_next part (ls ++ ms) ≡ join_next part ls ++ ms
unfolding join_next
join_next-append part [] ms h = absurd h
join_next-append part (l ∷ ls) ms h = refl

-- Behind a whole line, what is appended is read as it is.
pub file_lines-append :
    (xs ys : List Fragment) → EndsWhole xs → file_lines (xs ++ ys) ≡ file_lines xs ++ file_lines ys
unfolding file_lines
file_lines-append [] ys h = refl
file_lines-append (f ∷ []) ys h = rw h refl
file_lines-append (f ∷ g ∷ fs) ys h =
    let later = file_lines-append (g ∷ fs) ys h in
    elim (Bool-cases f.ended) [
      | inl e ↦ rw e (ap (λ (t : List String). f.text ∷ t) later)
      | inr e ↦ rw e (
          ap (join_next f.text) later
          ∙ join_next-append f.text (file_lines (g ∷ fs)) (file_lines ys)
              (file_lines-NotEmpty g fs))
    ]

-- What a crash leaves of the lines that were not durable: the first of them, the last one torn or whole.
abbrev pub Tears : List Fragment → List Fragment → Type 0
Tears fs [] = Unit {0}
Tears [] (k ∷ ks) = ⊥
Tears (f ∷ fs) (k ∷ []) = (k ≡ f) ⊎ (k.ended ≡ false)
Tears (f ∷ fs) (k ∷ l ∷ ks) = (k ≡ f) × Tears fs (l ∷ ks)

-- The directory after a crash: every file has its durable lines, and some of the others behind them.
abbrev pub Crashed : Dir → Dir → Type 0
Crashed dir dir' =
    (id : ℕ)
    → (kept : List Fragment) × (Tears (file_at id dir).cached kept
        × (file_at id dir' ≡ record { durable = (file_at id dir).durable ++ kept; cached = [] }))

pub get-delete :
    (n id : ℕ) (dir : Dir)
    → get ℕ_discrete id (delete_files_through dir n)
      ≡ (if ltb n id then get ℕ_discrete id dir else none)
unfolding delete_files_through retain get
get-delete n id [] = ground arith
get-delete n id ((j, f) ∷ dir) = ground (arith, get-delete n id dir)

-- Deleting the sealed files leaves what a restart replays as it was.
pub list_files_after-delete :
    (dir : Dir) (n : ℕ) → list_files_after (delete_files_through dir n) n ≡ list_files_after dir n
unfolding delete_files_through retain list_files_after
list_files_after-delete [] n = refl
list_files_after-delete ((id, f) ∷ dir) n = ground (arith, list_files_after-delete dir n)

-- Ascending, and every element above the bound.
abbrev pub Ascending : List ℕ → Type 0
Ascending [] = Unit {0}
Ascending (n ∷ []) = Unit {0}
Ascending (n ∷ m ∷ ms) = (n ≤ m) × Ascending (m ∷ ms)

insert_sorted-Ascending : (n : ℕ) (ms : List ℕ) → Ascending ms → Ascending (insert_sorted n ms)
unfolding insert_sorted
insert_sorted-Ascending n [] h = tt
insert_sorted-Ascending n (m ∷ []) h = ground arith
insert_sorted-Ascending n (m ∷ k ∷ ms) h = ground (arith, insert_sorted-Ascending n (k ∷ ms) h.1)

list_files_after-Ascending : (dir : Dir) (n : ℕ) → Ascending (list_files_after dir n)
unfolding list_files_after
list_files_after-Ascending [] n = tt
list_files_after-Ascending ((id, f) ∷ dir) n =
    ground
      (arith, list_files_after-Ascending dir n, insert_sorted-Ascending id (list_files_after dir n))

insert_sorted-Elem :
    (id n : ℕ) (ms : List ℕ) → Elem id (insert_sorted n ms) ↔ ((id ≡ n) ⊎ Elem id ms)
unfolding insert_sorted
insert_sorted-Elem id n [] = (λ h. h, λ h. h)
insert_sorted-Elem id n (m ∷ ms) =
    (grind (arith, (insert_sorted-Elem id n ms).0), grind (arith, (insert_sorted-Elem id n ms).1))

-- The files that a restart replays are those in the directory above the last sealed one, ascending.
pub list_files_after_iff :
    (dir : Dir) (n id : ℕ)
    → Elem id (list_files_after dir n) ↔ ((n < id) × (get ℕ_discrete id dir ≢ none))
unfolding list_files_after get
list_files_after_iff [] n id = (λ h. absurd h, λ h. absurd (h.1 refl))
list_files_after_iff ((j, f) ∷ dir) n id = (
  grind (arith, insert_sorted-Elem, (list_files_after_iff dir n id).0),
  grind (arith, insert_sorted-Elem, (list_files_after_iff dir n id).1),
)
