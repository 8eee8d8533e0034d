-- ===== src/Recovery/Torn.antt =====
-- The ingest handler, the log and the restart together: an event behind a torn line.
use usagedb.Prelude.{
  ℕ, ◌<◌, ◌≡◌, refl, ap, ◌∙◌, Bool, false, Option, none, some, List, [], ◌∷◌, ◌++◌, String, All,
  append_assoc, Bool-cases, inl, inr,
}
use usagedb.Model.{UsageEvent}
use usagedb.Ingest.Wal.{
  Dir, Fragment, whole, file_at, concat, join_next, file_lines, replay_lines, replay_file,
}
use usagedb.Ingest.Wal.Files.{
  HasJson, lines_of, replay-lines_of, replay-append, EndsWhole, file_lines-append, Crashed,
}
use usagedb.Ingest.Handler.{
  Env, Answers, Config, State, strict, Classified, IngestOutcome, ok, sort_batch,
  ingest_critical_section,
}
use usagedb.Ingest.Handler.Failures.{logged_lines, strict_durable}
use usagedb.Recovery.Acked.{events_of, replay_durable, group_lines}

abbrev pub torn : String → Fragment
torn part = record { text = part; ended = false }

-- A torn part and the line behind it are read as one.
file_lines-torn :
    (xs ys : List Fragment) (part line : String)
    → EndsWhole xs
    → file_lines ((xs ++ torn part ∷ []) ++ (whole line ∷ ys))
      ≡ file_lines xs ++ (concat part line ∷ file_lines ys)
unfolding file_lines join_next
file_lines-torn xs ys part line h =
    ap file_lines (append_assoc xs (torn part ∷ []) (whole line ∷ ys))
    ∙ file_lines-append xs (torn part ∷ whole line ∷ ys) h

replay-skips :
    (from_json : String → Option UsageEvent) (blank : String → Bool) (line : String)
    (lines : List String)
    → from_json line ≡ none
    → replay_lines from_json blank (line ∷ lines) ≡ replay_lines from_json blank lines
unfolding replay_lines
replay-skips from_json blank line lines h = elim (Bool-cases (blank line)) [
  | inl is_blank ↦ rw is_blank refl
  | inr is_text ↦ rw (is_text, h) refl
]

lines_of-first :
    (to_json : UsageEvent → Option String) (e : UsageEvent) (es : List UsageEvent) (json : String)
    → to_json e ≡ some json
    → lines_of to_json (e ∷ es) ≡ whole json ∷ lines_of to_json es
unfolding lines_of
lines_of-first to_json e es json h = rw (lines_of, h) refl

replay-torn :
    (env : Env) (from_json : String → Option UsageEvent) (blank : String → Bool)
    (xs : List Fragment) (part json : String) (e : UsageEvent) (es : List UsageEvent)
    → EndsWhole xs
    → env.to_json e ≡ some json
    → from_json (concat part json) ≡ none
    → All (HasJson env.to_json from_json blank) es
    → replay_lines from_json blank
        (file_lines ((xs ++ torn part ∷ []) ++ lines_of env.to_json (e ∷ es)))
      ≡ replay_lines from_json blank (file_lines xs) ++ es
replay-torn env from_json blank xs part json e es ended text unreadable others =
    let later = lines_of env.to_json es in
    let read = replay_lines from_json blank in
    ap (λ (fs : List Fragment). read (file_lines ((xs ++ torn part ∷ []) ++ fs)))
      (lines_of-first env.to_json e es json text)
    ∙ ap read (file_lines-torn xs later part json ended)
    ∙ replay-append env.to_json from_json blank (file_lines xs)
        (concat part json ∷ file_lines later)
    ∙ ap (λ (t : List UsageEvent). read (file_lines xs) ++ t)
        (replay-skips from_json blank (concat part json) (file_lines later) unreadable
          ∙ replay-lines_of env.to_json from_json blank es others)

-- Behind a torn line the first event that a call in Strict mode acknowledges is lost: after a crash the
-- replay of the file yields what it held before the torn part and the later events of the call. The
-- conditions: the torn part and the first event's text do not parse together, and the texts of the later
-- events parse back to them and are not blank.
pub acked-torn :
    (env : Env) (config : Config) (a : Answers) (batch new : List Classified) (c : Classified)
    (n : ℕ) (s s' : State) (o : IngestOutcome) (from_json : String → Option UsageEvent)
    (blank : String → Bool) (xs : List Fragment) (part json : String) (dir : Dir)
    → config.durability_mode ≡ strict
    → ingest_critical_section env config a batch n s ≡ (ok o, s')
    → 0 < o.accepted
    → (sort_batch s.dedupe [] batch).new_events ≡ c ∷ new
    → (let f = file_at s.wal.writer_id s.wal.dir in
        f.durable ++ (f.cached ++ s.wal.buffer) ≡ xs ++ torn part ∷ [])
    → EndsWhole xs
    → env.to_json c.event ≡ some json
    → from_json (concat part json) ≡ none
    → All (HasJson env.to_json from_json blank) (events_of new)
    → Crashed s'.wal.dir dir
    → replay_file from_json blank dir s.wal.writer_id
      ≡ replay_lines from_json blank (file_lines xs) ++ events_of new
acked-torn env config a batch new c n s s' o from_json blank xs part json dir mode ran some_new
      first before ended text unreadable others crash =
    let accepted = (sort_batch s.dedupe [] batch).new_events in
    let read = λ (fs : List Fragment). replay_lines from_json blank (file_lines fs) in
    replay_durable from_json blank s'.wal.dir dir s.wal.writer_id (logged_lines env accepted s.wal)
      (strict_durable env config a batch n s s' o mode ran some_new) crash
    ∙ ap read (group_lines env accepted s)
    ∙ ap (λ (fs : List Fragment). read (fs ++ lines_of env.to_json (events_of accepted))) before
    ∙ ap
        (λ (cs : List Classified).
          read ((xs ++ torn part ∷ []) ++ lines_of env.to_json (events_of cs)))
        first
    ∙ replay-torn env from_json blank xs part json c.event (events_of new) ended text unreadable
        others
