-- ===== src/Recovery/Acked.antt =====
-- The ingest handler and the restart together: what is acknowledged is recovered.
use usagedb.Prelude.{
  ℕ, ◌≡◌, refl, sym, ap, ◌∙◌, subst, Bool, Option, List, [], ◌∷◌, ◌++◌, map, String, append-nil,
  append_assoc,
}
use usagedb.Model.{UsageEvent}
use usagedb.Ingest.Wal.{Dir, WalFile, Fragment, file_at, file_lines, replay_lines, replay_file}
use usagedb.Ingest.Wal.Files.{lines_of, Tears, Crashed}
use usagedb.Ingest.Handler.{Env, State, Classified}
use usagedb.Ingest.Handler.Failures.{logged_lines}

-- The events of a list of accepted ones.
abbrev pub events_of : List Classified → List UsageEvent
events_of cs = map (λ (c : Classified). c.event) cs

nothing_kept : (kept : List Fragment) → Tears [] kept → kept ≡ []
nothing_kept [] h = refl
nothing_kept (k ∷ ks) h = absurd h

-- Where nothing but durable lines is in a file, a replay after a crash reads just these.
pub replay_durable :
    (from_json : String → Option UsageEvent) (blank : String → Bool) (dir dir' : Dir) (id : ℕ)
    (lines : List Fragment)
    → file_at id dir ≡ record { durable = lines; cached = [] }
    → Crashed dir dir'
    → replay_file from_json blank dir' id ≡ replay_lines from_json blank (file_lines lines)
unfolding replay_file
replay_durable from_json blank dir dir' id lines h crash =
    let c = crash id in
    let none_kept : c.0 ≡ [] =
      nothing_kept c.0 (subst (λ (f : WalFile). Tears f.cached c.0) h c.1.0) in
    let read = λ (fs : List Fragment). replay_lines from_json blank (file_lines fs) in
    ap (λ (f : WalFile). read (f.durable ++ f.cached)) c.1.1
    ∙ ap read (append-nil ((file_at id dir).durable ++ c.0))
    ∙ ap (λ (ks : List Fragment). read ((file_at id dir).durable ++ ks)) none_kept
    ∙ ap read (append-nil (file_at id dir).durable)
    ∙ ap (λ (f : WalFile). read f.durable) h

pub group_lines :
    (env : Env) (cs : List Classified) (s : State)
    → let f = file_at s.wal.writer_id s.wal.dir in
      logged_lines env cs s.wal
      ≡ (f.durable ++ (f.cached ++ s.wal.buffer)) ++ lines_of env.to_json (events_of cs)
group_lines env cs s =
    let f = file_at s.wal.writer_id s.wal.dir in
    let new = lines_of env.to_json (events_of cs) in
    ap (λ (t : List Fragment). f.durable ++ t) (sym (append_assoc f.cached s.wal.buffer new))
    ∙ sym (append_assoc f.durable (f.cached ++ s.wal.buffer) new)
