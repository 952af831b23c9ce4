-- ===== src/FixedMap/Shift.antt =====
-- What the loops of insertion and removal do to the array, slot by slot.
use gmx_solana.Prelude.{
  ℕ, zero, suc, ◌+◌, ◌-◌, ◌≤◌, ◌<◌, ◌≡◌, refl, List, some, ltb, leb, ◌&&◌, if◌then◌else◌, arith,
}
use gmx_solana.Prelude.Array.{
  length, get_elem?, set, length-set, get_elem?-some, get_elem?-none, get_elem?-set,
}
use gmx_solana.Result.{ok, err, panic}
use gmx_solana.FixedMap.{Entry, read, write, shift_up, shift_down, clear_slots}

module _ {V : Type 0} where
  pub read_lem :
      (d : List (Entry V)) (i : ℕ) {e : Entry V} → get_elem? d i ≡ some e → read d i ≡ ok e
  unfolding read
  read_lem d i h = rw h

  read_none :
      (d : List (Entry V)) (i : ℕ) → length d ≤ i → read d i ≡ err (panic "index out of bounds")
  unfolding read
  read_none d i h = rw (get_elem?-none d i h)

  pub write_lem :
      (d : List (Entry V)) (i : ℕ) (e : Entry V) → i < length d → write d i e ≡ ok (set d i e)
  unfolding write
  write_lem d i e h = let (x, p) = get_elem?-some d i h in rw (read_lem d i p)

  pub shift_up_lem :
      (i n : ℕ) (d : List (Entry V))
      → i + n < length d
      → (d' : List (Entry V)) × (shift_up i n d ≡ ok d')
        × (length d' ≡ length d)
        × ((j : ℕ)
            → get_elem? d' j
              ≡ (if ltb i j && leb j (i + n) then get_elem? d (j - 1) else get_elem? d j))
  unfolding shift_up
  shift_up_lem i zero d h = (d, refl, refl, λ j. ground arith)
  shift_up_lem i (suc n) d h =
      let (e, p) = get_elem?-some d (i + n) (omega arith) in
      let size = length-set d (suc (i + n)) e in
      let (d', run, len, at) = shift_up_lem i n (set d (suc (i + n)) e) (omega arith) in
      (
        d',
        rw (read_lem d (i + n) p) (rw (write_lem d (suc (i + n)) e (omega arith)) run),
        omega arith,
        λ j. ground (
          arith,
          at j,
          get_elem?-set d (suc (i + n)) j e,
          get_elem?-set d (suc (i + n)) (j - 1) e,
        ),
      )

  pub shift_down_lem :
      (i n : ℕ) (d : List (Entry V))
      → i + n < length d
      → (d' : List (Entry V)) × (shift_down i n d ≡ ok d')
        × (length d' ≡ length d)
        × ((j : ℕ)
            → get_elem? d' j
              ≡ (if leb i j && ltb j (i + n) then get_elem? d (suc j) else get_elem? d j))
  unfolding shift_down
  shift_down_lem i zero d h = (d, refl, refl, λ j. ground arith)
  shift_down_lem i (suc n) d h =
      let (e, p) = get_elem?-some d (suc i) (omega arith) in
      let size = length-set d i e in
      let (d', run, len, at) = shift_down_lem (suc i) n (set d i e) (omega arith) in
      (
        d',
        rw (read_lem d (suc i) p) (rw (write_lem d i e (omega arith)) run),
        omega arith,
        λ j. ground (arith, at j, get_elem?-set d i j e, get_elem?-set d i (suc j) e),
      )

  -- A shift down that reaches the end of the array reads past it.
  pub shift_down_past :
      (i n : ℕ) (d : List (Entry V))
      → 0 < n
      → i + n ≡ length d
      → shift_down i n d ≡ err (panic "index out of bounds")
  unfolding shift_down
  shift_down_past i zero d pos h = elim pos [ ]
  shift_down_past i (suc zero) d pos h = rw (read_none d (suc i) (omega arith))
  shift_down_past i (suc (suc n)) d pos h =
      let (e, p) = get_elem?-some d (suc i) (omega arith) in
      let size = length-set d i e in
      rw (read_lem d (suc i) p) (
        rw (write_lem d i e (omega arith))
          (shift_down_past (suc i) (suc n) (set d i e) (omega arith) (omega arith)))

  pub clear_slots_lem :
      (e : Entry V) (i n : ℕ) (d : List (Entry V))
      → i + n ≤ length d
      → (d' : List (Entry V)) × (clear_slots e i n d ≡ ok d') × (length d' ≡ length d)
  unfolding clear_slots
  clear_slots_lem e i zero d h = (d, refl, refl)
  clear_slots_lem e i (suc n) d h =
      let size = length-set d i e in
      let (d', run, len) = clear_slots_lem e (suc i) n (set d i e) (omega arith) in
      (d', rw (write_lem d i e (omega arith)) run, omega arith)
