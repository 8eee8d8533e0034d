-- ===== src/Prelude/Entries.antt =====
-- A loop that updates one entry of a map for each item: `map.entry(key(item)).or_insert(...)`.
use usagedb.Prelude.{
  ℕ, suc, ◌+◌, ◌≤◌, ◌≡◌, refl, sym, ap, ◌∙◌, Bool, true, false, Option, none, some, List, [], ◌∷◌,
  ite, retain, if◌then◌else◌, arith, length,
}
use usagedb.Prelude.Int.{
  ℤ, pos, saturating_add, ◌+ℤ◌, int_laws, saturating_add_exact, pos_part, neg_part, +ℤ_parts,
  eq_of_parts, +ℤ_assoc,
}
use usagedb.Prelude.Map.{get, insert, get-insert}

abbrev pub size : ℤ → ℕ
size z = pos_part z + neg_part z

add_swap : (a t b : ℤ) → (a +ℤ t) +ℤ b ≡ (b +ℤ t) +ℤ a
add_swap a t b = omega int_laws

add_left : (b t o u a : ℤ) → t +ℤ o ≡ u +ℤ a → (b +ℤ t) +ℤ o ≡ (b +ℤ u) +ℤ a
add_left b t o u a h = rw (+ℤ_assoc b t o) (rw h (sym (+ℤ_assoc b u a)))

pub exact_add :
    (a b : ℤ)
    → size a + size b ≤ 170141183460469231731687303715884105727
    → saturating_add a b ≡ a +ℤ b
exact_add a b h = saturating_add_exact a b (omega int_laws, omega int_laws)

pub size-+ℤ : (a b : ℤ) → size (a +ℤ b) ≤ size a + size b
unfolding ◌+ℤ◌
size-+ℤ a b = ground arith

move_quantity : (t o u v q r : ℤ) → t +ℤ o ≡ u +ℤ v → v ≡ o +ℤ q → t +ℤ r ≡ u +ℤ (q +ℤ r)
move_quantity t o u v q r h k = eq_of_parts (t +ℤ r) (u +ℤ (q +ℤ r)) (
    omega (
      arith,
      +ℤ_parts t r,
      +ℤ_parts u (q +ℤ r),
      +ℤ_parts q r,
      +ℤ_parts t o,
      +ℤ_parts u v,
      +ℤ_parts o q,
      ap pos_part h,
      ap neg_part h,
      ap pos_part k,
      ap neg_part k,
    ))

-- One entry on its own: the items of a key, taken in their order.
abbrev pub update_all : {E V : Type 0} → (E → Option V → V) → Option V → List E → Option V
update_all update old [] = old
update_all update old (e ∷ es) = update_all update (some (update e old)) es

abbrev pub has_key : {E K : Type 0} → Discrete K → (E → K) → K → E → Bool
has_key d key k e = ite (d (key e) k) true false

-- What the entries of a map hold together, and what the items bring.
abbrev pub quantity_or_zero : {V : Type 0} → (V → ℤ) → Option V → ℤ
quantity_or_zero quantity none = pos 0
quantity_or_zero quantity (some v) = quantity v

abbrev pub total : {K V : Type 0} → (V → ℤ) → List (K × V) → ℤ
total quantity [] = pos 0
total quantity ((k, v) ∷ m) = quantity v +ℤ total quantity m

abbrev pub sizes : {K V : Type 0} → (V → ℤ) → List (K × V) → ℕ
sizes quantity [] = 0
sizes quantity ((k, v) ∷ m) = size (quantity v) + sizes quantity m

abbrev pub amounts : {E : Type 0} → (E → ℤ) → List E → ℤ
amounts amount [] = pos 0
amounts amount (e ∷ es) = amount e +ℤ amounts amount es

abbrev pub amount_sizes : {E : Type 0} → (E → ℤ) → List E → ℕ
amount_sizes amount [] = 0
amount_sizes amount (e ∷ es) = size (amount e) + amount_sizes amount es

abbrev pub count_or_zero : {V : Type 0} → (V → ℕ) → Option V → ℕ
count_or_zero count none = 0
count_or_zero count (some v) = count v

abbrev pub total_count : {K V : Type 0} → (V → ℕ) → List (K × V) → ℕ
total_count count [] = 0
total_count count ((k, v) ∷ m) = count v + total_count count m

module _ {E K V : Type 0} (d : Discrete K) (key : E → K) (update : E → Option V → V) where
  unfoldable pub update_entries : List (K × V) → List E → List (K × V)
  update_entries m [] = m
  update_entries m (e ∷ es) = update_entries (insert d (key e) (update e (get d (key e) m)) m) es

  step_entry :
      (e : E) (k j : K) (m : List (K × V)) (rest : List E) (same : Dec (j ≡ k))
      → update_all update (ite same (some (update e (get d j m))) (get d k m)) rest
        ≡ update_all update (get d k m) (if ite same true false then e ∷ rest else rest)
  step_entry e k j m rest (yes same) =
      ap (λ x. update_all update (some (update e (get d x m))) rest) same
  step_entry e k j m rest (no other) = refl

  pub get-update_entries :
      (k : K) (m : List (K × V)) (es : List E)
      → get d k (update_entries m es) ≡ update_all update (get d k m) (retain (has_key d key k) es)
  unfolding update_entries retain
  get-update_entries k m [] = refl
  get-update_entries k m (e ∷ es) =
      let v = update e (get d (key e) m) in
      get-update_entries k (insert d (key e) v m) es
      ∙ rw (get-insert d (key e) k v m)
          (step_entry e k (key e) m (retain (has_key d key k) es) (d (key e) k))

  module _ (quantity : V → ℤ) (amount : E → ℤ) where
    total-insert :
        (k : K) (v : V) (m : List (K × V))
        → total quantity (insert d k v m) +ℤ quantity_or_zero quantity (get d k m)
          ≡ total quantity m +ℤ quantity v
    unfolding get insert
    total-insert k v [] = omega int_laws
    total-insert k v ((j, w) ∷ m) = elim (d j k) [
      | yes same ↦ ground (arith, add_swap (quantity v) (total quantity m) (quantity w))
      | no other ↦ ground (
        arith,
        add_left (quantity w) (total quantity (insert d k v m))
            (quantity_or_zero quantity (get d k m)) (total quantity m) (quantity v)
            (total-insert k v m),
      )
    ]

    sizes-insert :
        (k : K) (v : V) (m : List (K × V))
        → sizes quantity (insert d k v m) + size (quantity_or_zero quantity (get d k m))
          ≡ sizes quantity m + size (quantity v)
    unfolding get insert
    sizes-insert k v [] = omega arith
    sizes-insert k v ((j, w) ∷ m) = ground (arith, sizes-insert k v m)

    size_get :
        (k : K) (m : List (K × V)) → size (quantity_or_zero quantity (get d k m)) ≤ sizes quantity m
    unfolding get
    size_get k [] = omega arith
    size_get k ((j, w) ∷ m) = ground (arith, size_get k m)

    module _
        (adds : (e : E) (old : Option V)
          → quantity (update e old)
            ≡ saturating_add (quantity_or_zero quantity old) (amount e)) where
      update_exact :
          (e : E) (old : Option V)
          → size (quantity_or_zero quantity old) + size (amount e)
            ≤ 170141183460469231731687303715884105727
          → quantity (update e old) ≡ quantity_or_zero quantity old +ℤ amount e
      update_exact e old h = adds e old ∙ exact_add (quantity_or_zero quantity old) (amount e) h

      update_size :
          (e : E) (old : Option V)
          → size (quantity_or_zero quantity old) + size (amount e)
            ≤ 170141183460469231731687303715884105727
          → size (quantity (update e old)) ≤ size (quantity_or_zero quantity old) + size (amount e)
      update_size e old h =
          rw (update_exact e old h) (size-+ℤ (quantity_or_zero quantity old) (amount e))

      -- Saturating sums lose nothing while the sizes quantity of all amounts amount fit together.
      pub total-update_entries :
          (m : List (K × V)) (es : List E)
          → sizes quantity m + amount_sizes amount es ≤ 170141183460469231731687303715884105727
          → total quantity (update_entries m es) ≡ total quantity m +ℤ amounts amount es
      unfolding update_entries
      total-update_entries m [] h = omega int_laws
      total-update_entries m (e ∷ es) h =
          let old = get d (key e) m in
          let v = update e old in
          total-update_entries (insert d (key e) v m) es (
            omega (
              arith,
              sizes-insert (key e) v m,
              update_size e old (omega (arith, size_get (key e) m)),
            ))
          ∙ move_quantity (total quantity (insert d (key e) v m)) (quantity_or_zero quantity old)
              (total quantity m) (quantity v) (amount e) (amounts amount es)
              (total-insert (key e) v m) (update_exact e old (omega (arith, size_get (key e) m)))

      -- Nor do the entries outgrow them.
      pub sizes-update_entries :
          (m : List (K × V)) (es : List E)
          → sizes quantity m + amount_sizes amount es ≤ 170141183460469231731687303715884105727
          → sizes quantity (update_entries m es) ≤ sizes quantity m + amount_sizes amount es
      unfolding update_entries
      sizes-update_entries m [] h = omega arith
      sizes-update_entries m (e ∷ es) h =
          let old = get d (key e) m in
          let v = update e old in
          let here = sizes-insert (key e) v m in
          let grown = update_size e old (omega (arith, size_get (key e) m)) in
          omega (
            arith,
            here,
            grown,
            sizes-update_entries (insert d (key e) v m) es (omega (arith, here, grown)),
          )

  module _ (count : V → ℕ) where
    total_count-insert :
        (k : K) (v : V) (m : List (K × V))
        → total_count count (insert d k v m) + count_or_zero count (get d k m)
          ≡ total_count count m + count v
    unfolding get insert
    total_count-insert k v [] = omega arith
    total_count-insert k v ((j, w) ∷ m) = ground (arith, total_count-insert k v m)

    pub total_count-update_entries :
        (counts : (e : E) (old : Option V) → count (update e old) ≡ suc (count_or_zero count old))
        (m : List (K × V)) (es : List E)
        → total_count count (update_entries m es) ≡ total_count count m + length es
    unfolding update_entries
    total_count-update_entries counts m [] = omega arith
    total_count-update_entries counts m (e ∷ es) =
        let old = get d (key e) m in
        let v = update e old in
        omega (
          arith,
          total_count-update_entries counts (insert d (key e) v m) es,
          total_count-insert (key e) v m,
          counts e old,
        )

  -- The same for entries that are themselves sums: `weight` bounds what an entry's parts add up to.
  module _ (quantity : V → ℤ) (amount : E → ℤ) (weight : V → ℕ) where
    abbrev pub Adds : E → Option V → Type 0
    Adds e old =
        (quantity (update e old) ≡ quantity_or_zero quantity old +ℤ amount e)
        × (weight (update e old) ≤ count_or_zero weight old + size (amount e))

    weight_get :
        (k : K) (m : List (K × V)) → count_or_zero weight (get d k m) ≤ total_count weight m
    unfolding get
    weight_get k [] = omega arith
    weight_get k ((j, w) ∷ m) = ground (arith, weight_get k m)

    pub total-update_parts :
        (adds : (e : E) (old : Option V)
          → count_or_zero weight old + size (amount e) ≤ 170141183460469231731687303715884105727
          → Adds e old)
        (m : List (K × V)) (es : List E)
        → total_count weight m + amount_sizes amount es ≤ 170141183460469231731687303715884105727
        → (total quantity (update_entries m es) ≡ total quantity m +ℤ amounts amount es)
          × (total_count weight (update_entries m es)
              ≤ total_count weight m + amount_sizes amount es)
    unfolding update_entries
    total-update_parts adds m [] h = (omega int_laws, omega arith)
    total-update_parts adds m (e ∷ es) h =
        let old = get d (key e) m in
        let v = update e old in
        let here = total_count-insert weight (key e) v m in
        let (exact, grown) = adds e old (omega (arith, weight_get (key e) m)) in
        let (sum_rest, weight_rest) =
          total-update_parts adds (insert d (key e) v m) es (omega (arith, here, grown)) in
        (
          sum_rest
              ∙ move_quantity (total quantity (insert d (key e) v m))
                  (quantity_or_zero quantity old) (total quantity m) (quantity v) (amount e)
                  (amounts amount es) (total-insert quantity amount (key e) v m) exact,
          omega (arith, weight_rest, here, grown),
        )
