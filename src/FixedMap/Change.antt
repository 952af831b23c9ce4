-- ===== src/FixedMap/Change.antt =====
-- The three changes of a slot: insertion between slots, replacement of a value, removal. Each is given
-- by its result, the slots after it, and the order that it keeps.
use gmx_solana.Prelude.{
  ℕ, suc, ◌+◌, ◌-◌, ◌≤◌, ◌<◌, ◌≡◌, refl, List, none, some, ltb, leb, ◌==◌, ◌&&◌, if◌then◌else◌,
  arith,
}
use gmx_solana.Prelude.Array.{length, get_elem?, set, length-set, get_elem?-set}
use gmx_solana.Result.{ok, err, panic}
use gmx_solana.FixedMap.{Entry, FixedMap, default_entry, insert_at, replace, remove_at}
use gmx_solana.FixedMap.Shift.{read_lem, write_lem, shift_up_lem, shift_down_lem, shift_down_past}
use gmx_solana.FixedMap.Order.{Sorted, Before, After, Found, Vacant, IsValid}

module _ {V : Type 0} where
  -- The slots after an insertion at i.
  abbrev pub Inserted : List (Entry V) → ℕ → ℕ → Entry V → List (Entry V) → Type 0
  Inserted d n i e d' =
      (j : ℕ)
      → get_elem? d' j ≡ (
          if j == i
          then some e
          else if ltb i j && leb j n
          then get_elem? d (j - 1)
          else get_elem? d j)

  -- The slots after a removal at i, below the last live one.
  abbrev pub Removed : List (Entry V) → ℕ → ℕ → List (Entry V) → Type 0
  Removed d n i d' =
      (j : ℕ)
      → j < n - 1
      → get_elem? d' j ≡ (if ltb j i then get_elem? d j else get_elem? d (j + 1))

  Inserted-Sorted :
      (d d' : List (Entry V)) (n i : ℕ) (e : Entry V)
      → i ≤ n
      → Sorted d n
      → Before d i e.key
      → After d i n e.key
      → Inserted d n i e d'
      → Sorted d' (n + 1)
  Inserted-Sorted d d' n i e le s before after at a b x y lt live p q = ground (
    arith,
    at a,
    at b,
    s a b x y,
    s a (b - 1) x y,
    s (a - 1) (b - 1) x y,
    before a x,
    after (b - 1) y,
  )

  Removed-Sorted :
      (d d' : List (Entry V)) (n i : ℕ) → Sorted d n → Removed d n i d' → Sorted d' (n - 1)
  Removed-Sorted d d' n i s at a b x y lt live p q =
      ground (arith, at a, at b, s a b x y, s a (b + 1) x y, s (a + 1) (b + 1) x y)

  Replaced-Sorted :
      (d : List (Entry V)) (n i : ℕ) (e : Entry V) (v : V)
      → i < length d
      → get_elem? d i ≡ some e
      → Sorted d n
      → Sorted (set d i (record { key = e.key; value = v })) n
  Replaced-Sorted d n i e v fits at s a b x y lt live p q =
      let new : Entry V = record { key = e.key; value = v } in
      ground
        (arith, get_elem?-set d i a new, get_elem?-set d i b new, s a b x y, s a b e y, s a b x e)

module _ {K V : Type 0} (to_key : K → ℕ) (capacity : ℕ) (zeroed : V) (m : FixedMap V)
    (valid : IsValid capacity m) where
  open m use {slots, count}

  pub insert_at_lem :
      (i key : ℕ) (v : V)
      → Vacant slots count key i
      → count < capacity
      → (d : List (Entry V)) × (insert_at to_key capacity zeroed m i key v
          ≡ ok (none, record { slots = d; count = count + 1 }))
        × Inserted slots count i (record { key = key; value = v }) d
        × IsValid capacity (record { slots = d; count = count + 1 })
  unfolding insert_at
  insert_at_lem i key v r room =
      let size = valid.size in
      let live = r.live in
      let (d, run, len, at) = shift_up_lem i (count - i) slots (omega arith) in
      let new : Entry V = record { key = key; value = v } in
      let at' : Inserted slots count i new (set d i new) =
        λ j. ground (arith, at j, get_elem?-set d i j new) in
      (
        set d i new,
        rw run (rw (write_lem d i new (omega arith)) refl),
        at',
        record {
          size = omega (arith, length-set d i new);
          within = omega arith;
          sorted =
              Inserted-Sorted slots (set d i new) count i new live valid.sorted r.before r.after
                at';
        },
      )

  pub replace_lem :
      (i key : ℕ) (v : V) (f : Found slots count key i)
      → (replace to_key capacity zeroed m i v
          ≡ ok (
            some f.entry.value,
            record m { slots = set slots i (record { key = f.entry.key; value = v }) },
          ))
        × IsValid capacity
            (record m { slots = set slots i (record { key = f.entry.key; value = v }) })
  unfolding replace
  replace_lem i key v f =
      let size = valid.size in
      let within = valid.within in
      let live = f.live in
      let new : Entry V = record { key = f.entry.key; value = v } in
      (
        rw (read_lem slots i f.at),
        record {
          size = omega (arith, length-set slots i new);
          within = within;
          sorted = Replaced-Sorted slots count i f.entry v (omega arith) f.at valid.sorted;
        },
      )

  pub remove_at_lem :
      (i key : ℕ) (f : Found slots count key i)
      → count < capacity
      → (d : List (Entry V)) × (remove_at to_key capacity zeroed m i
          ≡ ok (some f.entry.value, record { slots = d; count = count - 1 }))
        × Removed slots count i d
        × IsValid capacity (record { slots = d; count = count - 1 })
  unfolding remove_at
  remove_at_lem i key f room =
      let size = valid.size in
      let live = f.live in
      let gone : Entry V = record { key = f.entry.key; value = zeroed } in
      let none_left : Entry V = default_entry to_key capacity zeroed in
      let len1 = length-set slots i gone in
      let (d, run, len, at) = shift_down_lem i (count - i) (set slots i gone) (omega arith) in
      let d' = set d (count - 1) none_left in
      let at' : Removed slots count i d' = λ j h. ground (
        arith,
        at j,
        get_elem?-set d (count - 1) j none_left,
        get_elem?-set slots i j gone,
        get_elem?-set slots i (suc j) gone,
      ) in
      (
        d',
        rw (read_lem slots i f.at)
            (rw run (rw (write_lem d (count - 1) none_left (omega arith)) refl)),
        at',
        record {
          size = omega (arith, length-set d (count - 1) none_left);
          within = omega arith;
          sorted = Removed-Sorted slots d' count i valid.sorted at';
        },
      )

  pub remove_at_full :
      (i key : ℕ) (f : Found slots count key i)
      → count ≡ capacity
      → remove_at to_key capacity zeroed m i ≡ err (panic "index out of bounds")
  unfolding remove_at
  remove_at_full i key f full =
      let size = valid.size in
      let live = f.live in
      let gone : Entry V = record { key = f.entry.key; value = zeroed } in
      let len1 = length-set slots i gone in
      rw (read_lem slots i f.at)
        (rw (shift_down_past i (count - i) (set slots i gone) (omega arith) (omega arith)))
