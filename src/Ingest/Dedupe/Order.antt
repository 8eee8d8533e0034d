-- ===== src/Ingest/Dedupe/Order.antt =====
-- The queue and the cache of `HotDedupe` hold the same entries in the same order, and the two
-- eviction loops drop a front part of both.
use usagedb.Prelude.{
  ℕ, suc, ◌-◌, ◌≡◌, refl, inl, inr, none, [], ◌∷◌, ◌++◌, length, drop, ℕ_discrete, ltb, arith,
  tests, Bool-cases, if◌then◌else◌,
}
use usagedb.Prelude.Int.{ℤ, leb_ℤ}
use usagedb.Prelude.Map.{get, insert, remove, remove_absent, get-append}
use usagedb.Ingest.Dedupe.{Cache, Queue, DedupeEntry, HotDedupe, expire, shrink}

abbrev pub Parallel : Queue → Cache → Type 0
Parallel [] [] = Unit {0}
Parallel [] (_ ∷ _) = ⊥
Parallel (_ ∷ _) [] = ⊥
Parallel ((hash, t) ∷ order) ((k, e) ∷ cache) =
    (hash ≡ k) × (t ≡ e.first_seen_ms) × (get ℕ_discrete k cache ≡ none) × Parallel order cache

pub record IsValid (s : HotDedupe) : Type 0 where
  pub parallel : Parallel s.order s.cache

-- How many entries at the front are older than the cutoff.
unfoldable pub stale_count : ℤ → Queue → ℕ
stale_count cutoff [] = 0
stale_count cutoff ((_, t) ∷ order) =
    let n = stale_count cutoff order in if leb_ℤ cutoff t then 0 else suc n

pub length-Parallel : (o : Queue) (c : Cache) → Parallel o c → length o ≡ length c
length-Parallel [] [] p = refl
length-Parallel [] (_ ∷ _) p = absurd p
length-Parallel (_ ∷ _) [] p = absurd p
length-Parallel ((h, t) ∷ o) ((k, e) ∷ c) p = omega (arith, length-Parallel o c p.3)

pub remove_front :
    (h k : ℕ) (e : DedupeEntry) (c : Cache)
    → h ≡ k
    → get ℕ_discrete k c ≡ none
    → remove ℕ_discrete h ((k, e) ∷ c) ≡ c
unfolding remove
remove_front h k e c same fresh = ground (arith, remove_absent ℕ_discrete k c fresh)

pub drop-Parallel : (n : ℕ) (o : Queue) (c : Cache) → Parallel o c → Parallel (drop n o) (drop n c)
drop-Parallel ℕ.zero o c p = p
drop-Parallel (suc n) [] [] p = p
drop-Parallel (suc n) [] (_ ∷ _) p = absurd p
drop-Parallel (suc n) (_ ∷ _) [] p = absurd p
drop-Parallel (suc n) ((h, t) ∷ o) ((k, e) ∷ c) p = drop-Parallel n o c p.3

pub expire-drop :
    (cutoff : ℤ) (o : Queue) (c : Cache)
    → Parallel o c
    → expire cutoff o c ≡ (drop (stale_count cutoff o) o, drop (stale_count cutoff o) c)
unfolding expire stale_count
expire-drop cutoff [] [] p = refl
expire-drop cutoff [] (_ ∷ _) p = absurd p
expire-drop cutoff (_ ∷ _) [] p = absurd p
expire-drop cutoff ((h, t) ∷ o) ((k, e) ∷ c) p =
    rw (remove_front h k e c p.0 p.2, expire-drop cutoff o c p.3) (ground arith)

pub shrink-drop :
    (cap : ℕ) (o : Queue) (c : Cache)
    → Parallel o c
    → shrink cap o c ≡ (drop (length c - cap) o, drop (length c - cap) c)
unfolding shrink
shrink-drop cap [] [] p = ground arith
shrink-drop cap [] (_ ∷ _) p = absurd p
shrink-drop cap (_ ∷ _) [] p = absurd p
shrink-drop cap ((h, t) ∷ o) ((k, e) ∷ c) p =
    rw (remove_front h k e c p.0 p.2, shrink-drop cap o c p.3)
      (elim (Bool-cases (ltb cap (suc (length c)))) [
        | inl over ↦
            let n : suc (length c) - cap ≡ suc (length c - cap) = omega (tests) in rw (over, n)
        | inr fits ↦ let n : suc (length c) - cap ≡ 0 = ground arith in rw (fits, n)
      ])

pub insert_absent :
    (k : ℕ) (e : DedupeEntry) (c : Cache)
    → get ℕ_discrete k c ≡ none
    → insert ℕ_discrete k e c ≡ c ++ (k, e) ∷ []
unfolding get insert
insert_absent k e [] h = refl
insert_absent k e ((j, f) ∷ c) h = ground (arith, insert_absent k e c)

pub append-Parallel :
    (h : ℕ) (e : DedupeEntry) (o : Queue) (c : Cache)
    → Parallel o c
    → get ℕ_discrete h c ≡ none
    → Parallel (o ++ (h, e.first_seen_ms) ∷ []) (c ++ (h, e) ∷ [])
unfolding get
append-Parallel h e [] [] p fresh = (refl, refl, refl, tt)
append-Parallel h e [] (_ ∷ _) p fresh = absurd p
append-Parallel h e (_ ∷ _) [] p fresh = absurd p
append-Parallel h e ((i, t) ∷ o) ((k, f) ∷ c) p fresh =
    ground (arith, get-append ℕ_discrete k c ((h, e) ∷ []), append-Parallel h e o c p.3)
