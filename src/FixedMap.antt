-- ===== src/FixedMap.antt =====
-- crates/gmsol-utils/src/fixed_map.rs: a map in a fixed array of entries sorted by key, of which `count`
-- are live. A key of 32 bytes is the number that they spell, the first byte foremost, so that the order
-- of the arrays is the order of the numbers. `to_key` is a parameter of the macro. An access out of
-- bounds is the error `panic`.
mod Shift
pub mod Order
mod Change
pub mod Abstract
pub mod Refine
use gmx_solana.Prelude.{
  ℕ, zero, suc, ◌+◌, ◌-◌, ◌≡◌, Bool, Option, none, some, List, [], ◌∷◌, ltb, leb, ◌==◌,
  if◌then◌else◌,
}
use gmx_solana.Prelude.Array.{length, get_elem?, set, replicate}
use gmx_solana.Result.{
  Result, ok, err, ◌>>=◌, ◌>>◌, ok_or, panic, already_exist, exceed_max_length_limit,
}

pub record Entry (V : Type 0) : Type 0 where
  pub key : ℕ
  pub value : V

-- `slots` is the field `data`.
pub record FixedMap (V : Type 0) : Type 0 where
  pub slots : List (Entry V)
  pub count : ℕ

-- What a search ends with: `Ok(index)` or `Err(index)`.
pub data Search : Type 0 where
  found vacant : ℕ → Search

module _ {V : Type 0} where
  unfoldable pub read : List (Entry V) → ℕ → Result (Entry V)
  read slots i = ok_or (get_elem? slots i) (panic "index out of bounds")

  unfoldable pub write : List (Entry V) → ℕ → Entry V → Result (List (Entry V))
  unfolding read
  write slots i e = do read slots i; ok (set slots i e)

  -- `slice::binary_search_by` on the live slots, by what it promises of a sorted slice: the slot with
  -- the key, else the first slot with a greater one, where the key may be inserted.
  unfoldable pub search_from : List (Entry V) → ℕ → ℕ → ℕ → Result Search
  unfolding read
  search_from slots key i zero = ok (vacant i)
  search_from slots key i (suc n) = do
    e ← read slots i
    let rest = search_from slots key (suc i) n
    if ltb e.key key then rest else if e.key == key then ok (found i) else ok (vacant i)

  unfoldable pub binary_search : FixedMap V → ℕ → Result Search
  unfolding search_from
  binary_search m key = search_from m.slots key 0 m.count

  -- `for i in (index..index + n).rev() { data[i + 1] = data[i] }`.
  unfoldable pub shift_up : ℕ → ℕ → List (Entry V) → Result (List (Entry V))
  unfolding read write
  shift_up index zero slots = ok slots
  shift_up index (suc n) slots = do
    e ← read slots (index + n)
    slots' ← write slots (suc (index + n)) e
    shift_up index n slots'

  -- `for i in index..index + n { data[i] = data[i + 1] }`.
  unfoldable pub shift_down : ℕ → ℕ → List (Entry V) → Result (List (Entry V))
  unfolding read write
  shift_down index zero slots = ok slots
  shift_down index (suc n) slots = do
    e ← read slots (suc index)
    slots' ← write slots index e
    shift_down (suc index) n slots'

  -- Clears the first n slots from `index`.
  unfoldable pub clear_slots : Entry V → ℕ → ℕ → List (Entry V) → Result (List (Entry V))
  unfolding write
  clear_slots e index zero slots = ok slots
  clear_slots e index (suc n) slots = do
    slots' ← write slots index e
    clear_slots e (suc index) n slots'

-- `capacity` is the `$len` of the macro and `zeroed` the default of the value type.
module _ {K V : Type 0} (to_key : K → ℕ) (capacity : ℕ) (zeroed : V) where
  unfoldable pub default_entry : Entry V
  default_entry = record { key = 0; value = zeroed }

  unfoldable pub empty : FixedMap V
  unfolding default_entry
  empty = record { slots = replicate capacity default_entry; count = 0 }

  unfoldable pub get : FixedMap V → K → Result (Option V)
  unfolding binary_search read
  get m k = do
    s ← binary_search m (to_key k)
    elim s [ found i ↦ (do e ← read m.slots i; ok (some e.value)) | vacant i ↦ ok none ]

  unfoldable pub get_entry_by_index : FixedMap V → ℕ → Result (Option (ℕ × V))
  unfolding read
  get_entry_by_index m i =
      if ltb i m.count then (do e ← read m.slots i; ok (some (e.key, e.value))) else ok none

  unfoldable pub replace : FixedMap V → ℕ → V → Result (Option V × FixedMap V)
  unfolding read write
  replace m i v = do
    e ← read m.slots i
    slots ← write m.slots i (record { key = e.key; value = v })
    ok (some e.value, record m { slots = slots })

  unfoldable pub insert_at : FixedMap V → ℕ → ℕ → V → Result (Option V × FixedMap V)
  unfolding shift_up write
  insert_at m i key v = do
    shifted ← shift_up i (m.count - i) m.slots
    slots ← write shifted i (record { key = key; value = v })
    ok (none, record { slots = slots; count = m.count + 1 })

  unfoldable pub insert_with_options : FixedMap V → K → V → Bool → Result (Option V × FixedMap V)
  unfolding binary_search replace insert_at
  insert_with_options m k v new = do
    s ← binary_search m (to_key k)
    elim s [
      | found i ↦ if new then err already_exist else replace m i v
      | vacant i ↦
          if leb capacity m.count then err exceed_max_length_limit else insert_at m i (to_key k) v
    ]

  unfoldable pub expect_success : Result (Option V × FixedMap V) → Result (Option V × FixedMap V)
  expect_success (ok r) = ok r
  expect_success (err e) = err (panic "must be success")

  unfoldable pub insert : FixedMap V → K → V → Result (Option V × FixedMap V)
  unfolding insert_with_options expect_success
  insert m k v = expect_success (insert_with_options m k v Bool.false)

  unfoldable pub remove_at : FixedMap V → ℕ → Result (Option V × FixedMap V)
  unfolding read write shift_down default_entry
  remove_at m i = do
    e ← read m.slots i
    taken ← write m.slots i (record { key = e.key; value = zeroed })
    shifted ← shift_down i (m.count - i) taken
    slots ← write shifted (m.count - 1) default_entry
    ok (some e.value, record { slots = slots; count = m.count - 1 })

  unfoldable pub remove : FixedMap V → K → Result (Option V × FixedMap V)
  unfolding binary_search remove_at
  remove m k = do
    s ← binary_search m (to_key k)
    elim s [ found i ↦ remove_at m i | vacant i ↦ ok (none, m) ]

  -- A reference through which a caller changes the value.
  unfoldable pub get_mut : FixedMap V → K → (V → V) → Result (FixedMap V)
  unfolding binary_search read replace
  get_mut m k change = do
    s ← binary_search m (to_key k)
    elim s [
      | found i ↦ (do e ← read m.slots i; r ← replace m i (change e.value); ok r.1)
      | vacant i ↦ ok m
    ]

  unfoldable pub is_empty : FixedMap V → Bool
  is_empty m = m.count == 0

  unfoldable pub clear : FixedMap V → Result (FixedMap V)
  unfolding clear_slots default_entry
  clear m = do
    slots ← clear_slots default_entry 0 m.count m.slots
    ok (record { slots = slots; count = 0 })
