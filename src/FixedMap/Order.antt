-- ===== src/FixedMap/Order.antt =====
-- Maps whose live slots are sorted by key, and what a search finds in them.
use gmx_solana.Prelude.{
  ℕ, zero, suc, ◌+◌, ◌≤◌, ◌<◌, ◌≡◌, refl, List, some, inl, inr, ltb, ◌==◌, Bool-cases, ltb→lt,
  ltb→le, ==→eq, ==→ne, arith,
}
use gmx_solana.Prelude.Array.{length, get_elem?, get_elem?-some}
use gmx_solana.Result.{Result, ok}
use gmx_solana.FixedMap.{Entry, FixedMap, Search, found, vacant, search_from, binary_search}
use gmx_solana.FixedMap.Shift.{read_lem}

module _ {V : Type 0} where
  abbrev pub Sorted : List (Entry V) → ℕ → Type 0
  Sorted slots n =
      (i j : ℕ) (a b : Entry V)
      → i < j
      → j < n
      → get_elem? slots i ≡ some a
      → get_elem? slots j ≡ some b
      → a.key < b.key

  -- The keys before i are below the given one.
  abbrev pub Before : List (Entry V) → ℕ → ℕ → Type 0
  Before slots i key = (j : ℕ) (e : Entry V) → j < i → get_elem? slots j ≡ some e → e.key < key

  -- The keys from i to n are above it.
  abbrev pub After : List (Entry V) → ℕ → ℕ → ℕ → Type 0
  After slots i n key =
      (j : ℕ) (e : Entry V) → i ≤ j → j < n → get_elem? slots j ≡ some e → key < e.key

  pub record Found (slots : List (Entry V)) (n key i : ℕ) : Type 0 where
    pub entry : Entry V
    pub live : i < n
    pub at : get_elem? slots i ≡ some entry
    pub same : entry.key ≡ key

  pub record Vacant (slots : List (Entry V)) (n key i : ℕ) : Type 0 where
    pub live : i ≤ n
    pub before : Before slots i key
    pub after : After slots i n key

  -- The two ends of a search, with the slot.
  pub data Ends (slots : List (Entry V)) (n key : ℕ) (r : Result Search) : Type 0 where
    at_key : (i : ℕ) → r ≡ ok (found i) → Found slots n key i → Ends slots n key r
    between : (i : ℕ) → r ≡ ok (vacant i) → Vacant slots n key i → Ends slots n key r

  module _ (slots : List (Entry V)) (count key : ℕ) (fits : count ≤ length slots)
      (s : Sorted slots count) where
    Before-suc :
        (i : ℕ) (e : Entry V)
        → get_elem? slots i ≡ some e
        → e.key < key
        → i < count
        → Before slots (suc i) key
    Before-suc i e p lt live j x h q = elim (Bool-cases (j == i)) [
      | inl same ↦ let eq = ==→eq j i same in ground arith
      | inr other ↦
          let ne = ==→ne j i other in let k = s j i x e (omega arith) live q p in omega arith
    ]

    After_of_gt :
        (i : ℕ) (e : Entry V)
        → get_elem? slots i ≡ some e
        → key < e.key
        → i < count
        → After slots i count key
    After_of_gt i e p lt live j x h below q = elim (Bool-cases (j == i)) [
      | inl same ↦ let eq = ==→eq j i same in ground arith
      | inr other ↦
          let ne = ==→ne j i other in let k = s i j e x (omega arith) below p q in omega arith
    ]

    pub search_from_lem :
        (i n : ℕ)
        → i + n ≡ count
        → Before slots i key
        → Ends slots count key (search_from slots key i n)
    unfolding search_from
    search_from_lem i zero h b =
        between i refl
          (record { live = omega arith; before = b; after = λ j e p q r. absurd (omega arith) })
    search_from_lem i (suc n) h b =
        let (e, p) = get_elem?-some slots i (omega arith) in
        rw (read_lem slots i p) (elim (Bool-cases (ltb e.key key)) [
          | inl below ↦ rw below (
              search_from_lem (suc i) n (omega arith)
                (Before-suc i e p (ltb→lt e.key key below) (omega arith)))
          | inr above ↦
              let le = ltb→le e.key key above in
              rw above (elim (Bool-cases (e.key == key)) [
                | inl same ↦ rw same (
                    at_key i refl (record {
                      entry = e;
                      live = omega arith;
                      at = p;
                      same = ==→eq e.key key same;
                    }))
                | inr other ↦
                    let ne = ==→ne e.key key other in
                    rw other (
                      between i refl (record {
                        live = omega arith;
                        before = b;
                        after = After_of_gt i e p (omega arith) (omega arith);
                      }))
              ])
        ])

  pub record IsValid (capacity : ℕ) (m : FixedMap V) : Type 0 where
    pub size : length m.slots ≡ capacity
    pub within : m.count ≤ capacity
    pub sorted : Sorted m.slots m.count

  pub binary_search-Ends :
      {capacity : ℕ} (m : FixedMap V) (key : ℕ)
      → IsValid capacity m
      → Ends m.slots m.count key (binary_search m key)
  unfolding binary_search
  binary_search-Ends m key v =
      let size = v.size in
      let within = v.within in
      search_from_lem m.slots m.count key (omega arith) v.sorted 0 m.count (omega arith)
        (λ j e h p. absurd (omega arith))
