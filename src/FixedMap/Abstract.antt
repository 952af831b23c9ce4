-- ===== src/FixedMap/Abstract.antt =====
-- What a fixed map promises: a finite map of at most `capacity` keys, and when the slots stand for it.
use gmx_solana.Prelude.{
  ℕ, ◌+◌, ◌-◌, ◌<◌, ◌≡◌, refl, Bool, Option, none, some, List, inl, inr, ltb, leb, ◌==◌,
  if◌then◌else◌, Bool-cases, Option-cases, ==→eq, ltb→lt, ltb→le, arith,
}
use gmx_solana.Prelude.Array.{get_elem?, set, get_elem?-set}
use gmx_solana.Result.{Result, ok, err, panic, already_exist, exceed_max_length_limit}
use gmx_solana.FixedMap.{Entry, FixedMap}
use gmx_solana.FixedMap.Order.{Found, Vacant, IsValid}
use gmx_solana.FixedMap.Change.{Inserted, Removed}

pub record FiniteMap (V : Type 0) : Type 0 where
  pub at : ℕ → Option V
  pub size : ℕ

pub data Command (K V : Type 0) : Type 0 where
  look_up : K → Command K V
  put : K → V → Bool → Command K V
  overwrite : K → V → Command K V
  modify : K → (V → V) → Command K V
  delete : K → Command K V
  delete_all : Command K V

module _ {V : Type 0} where
  abbrev pub assign : (ℕ → Option V) → ℕ → Option V → ℕ → Option V
  assign f key v k = if k == key then v else f k

  abbrev pub new_map : FiniteMap V
  new_map = record { at = λ k. none; size = 0 }

  -- A key that is there is overwritten unless the command asks for a new one; one that is not takes a
  -- free place, if there is one.
  unfoldable pub put_spec : ℕ → FiniteMap V → ℕ → V → Bool → Result (Option V × FiniteMap V)
  put_spec capacity a key v new = elim (a.at key) [
    | some old ↦
        if new then err already_exist else ok (some old, record a { at = assign a.at key (some v) })
    | none ↦
        if leb capacity a.size
        then err exceed_max_length_limit
        else ok (none, record { at = assign a.at key (some v); size = a.size + 1 })
  ]

  -- The value of a key that is there changes.
  unfoldable pub modify_spec : FiniteMap V → ℕ → (V → V) → Result (Option V × FiniteMap V)
  modify_spec a key change = elim (a.at key) [
    | some old ↦ ok (none, record a { at = assign a.at key (some (change old)) })
    | none ↦ ok (none, a)
  ]

  -- The removal of a key that is there panics if the map is full.
  unfoldable pub delete_spec : ℕ → FiniteMap V → ℕ → Result (Option V × FiniteMap V)
  delete_spec capacity a key = elim (a.at key) [
    | some old ↦
        if leb capacity a.size
        then err (panic "index out of bounds")
        else ok (some old, record { at = assign a.at key none; size = a.size - 1 })
    | none ↦ ok (none, a)
  ]

  pub record Represents (capacity : ℕ) (m : FixedMap V) (a : FiniteMap V) : Type 0 where
    pub valid : IsValid capacity m
    pub counted : m.count ≡ a.size
    pub sound :
        (j : ℕ) (e : Entry V)
        → j < m.count
        → get_elem? m.slots j ≡ some e
        → a.at e.key ≡ some e.value
    pub complete :
        (key : ℕ) (v : V)
        → a.at key ≡ some v
        → (j : ℕ) × (j < m.count) × (get_elem? m.slots j ≡ some (record { key = key; value = v }))

  module _ {capacity : ℕ} {m : FixedMap V} {a : FiniteMap V} (r : Represents capacity m a) where
    pub at-Found : (i key : ℕ) (f : Found m.slots m.count key i) → a.at key ≡ some f.entry.value
    at-Found i key f = rw (← f.same) (r.sound i f.entry f.live f.at)

    pub at-Vacant : (i key : ℕ) → Vacant m.slots m.count key i → a.at key ≡ none
    at-Vacant i key f = elim (Option-cases (a.at key)) [
      | inl absent ↦ absent
      | inr (v, there) ↦
          let (j, live, at) = r.complete key v there in
          let e : Entry V = record { key = key; value = v } in
          elim (Bool-cases (ltb j i)) [
            | inl below ↦ absurd (let lt = f.before j e (ltb→lt j i below) at in omega arith)
            | inr above ↦ absurd (let lt = f.after j e (ltb→le j i above) live at in omega arith)
          ]
    ]

    pub Inserted-Represents :
        (i key : ℕ) (v : V) (d : List (Entry V))
        → Vacant m.slots m.count key i
        → Inserted m.slots m.count i (record { key = key; value = v }) d
        → IsValid capacity (record { slots = d; count = m.count + 1 })
        → Represents capacity
            (record { slots = d; count = m.count + 1 })
            (record { at = assign a.at key (some v); size = m.count + 1 })
    Inserted-Represents i key v d f at valid = record {
      valid = valid;
      counted = refl;
      sound = λ j e live p.
          ground (arith, at j, r.sound j e, r.sound (j - 1) e, f.before j e, f.after (j - 1) e);
      complete = λ k w there. elim (Bool-cases (k == key)) [
        | inl same ↦
            let eq = ==→eq k key same in let le = f.live in (i, omega arith, ground (arith, at i))
        | inr other ↦
            let (j, live, p) = r.complete k w (ground arith) in
            (if ltb j i then j else j + 1, ground arith, ground (arith, at j, at (j + 1)))
      ];
    }

    pub Replaced-Represents :
        (i key : ℕ) (v : V) (f : Found m.slots m.count key i)
        → IsValid capacity
            (record m { slots = set m.slots i (record { key = f.entry.key; value = v }) })
        → Represents capacity
            (record m { slots = set m.slots i (record { key = f.entry.key; value = v }) })
            (record a { at = assign a.at key (some v) })
    Replaced-Represents i key v f valid =
        let new : Entry V = record { key = f.entry.key; value = v } in
        let size = r.valid.size in
        let within = r.valid.within in
        let live = f.live in
        let same = f.same in
        record {
          valid = valid;
          counted = r.counted;
          sound = λ j e below p. ground (
            arith,
            get_elem?-set m.slots i j new (omega arith),
            r.sound j e,
            r.valid.sorted i j f.entry e,
            r.valid.sorted j i e f.entry,
            f.at,
          );
          complete = λ k w there. elim (Bool-cases (k == key)) [
            | inl here ↦
                let eq = ==→eq k key here in
                (i, live, ground (arith, get_elem?-set m.slots i i new (omega arith)))
            | inr other ↦
                let (j, below, p) = r.complete k w (ground arith) in
                (j, below, ground (arith, get_elem?-set m.slots i j new (omega arith), f.at))
          ];
        }

    pub Removed-Represents :
        (i key : ℕ) (d : List (Entry V)) (f : Found m.slots m.count key i)
        → Removed m.slots m.count i d
        → IsValid capacity (record { slots = d; count = m.count - 1 })
        → Represents capacity
            (record { slots = d; count = m.count - 1 })
            (record { at = assign a.at key none; size = m.count - 1 })
    Removed-Represents i key d f at valid =
        let live = f.live in
        let same = f.same in
        record {
          valid = valid;
          counted = refl;
          sound = λ j e below p. ground (
            arith,
            at j,
            r.sound j e,
            r.sound (j + 1) e,
            r.valid.sorted j i e f.entry,
            r.valid.sorted i (j + 1) f.entry e,
            f.at,
          );
          complete = λ k w there. elim (Bool-cases (k == key)) [
            | inl here ↦ absurd (ground arith)
            | inr other ↦
                let (j, below, p) = r.complete k w (ground arith) in
                let ne : ¬ (j ≡ i) = λ e. ground (arith, f.at) in
                (if ltb j i then j else j - 1, ground arith, ground (arith, at j, at (j - 1)))
          ];
        }
