-- ===== src/FixedMap/Refine.antt =====
-- The fixed map behaves as the finite map that it promises, call by call.
use gmx_solana.Prelude.{
  ℕ, ◌<◌, ◌≡◌, refl, Bool, false, Option, none, some, List, [], ◌∷◌, inl, inr, ltb, leb, Bool-cases,
  leb→le, leb→lt, ltb→lt, ltb→le, arith,
}
use gmx_solana.Prelude.Array.{length, get_elem?, length-replicate}
use gmx_solana.Result.{Result, Error, ok, err, ◌>>=◌, panic}
use gmx_solana.FixedMap.{
  Entry, FixedMap, default_entry, empty, get, insert_with_options, insert, expect_success, get_mut,
  remove, clear,
}
use gmx_solana.FixedMap.Shift.{read_lem, clear_slots_lem}
use gmx_solana.FixedMap.Order.{IsValid, at_key, between, binary_search-Ends}
use gmx_solana.FixedMap.Change.{insert_at_lem, replace_lem, remove_at_lem, remove_at_full}
use gmx_solana.FixedMap.Abstract.{
  FiniteMap, Command, look_up, put, overwrite, modify, delete, delete_all, new_map, put_spec,
  modify_spec, delete_spec, Represents, at-Found, at-Vacant, Inserted-Represents,
  Replaced-Represents, Removed-Represents,
}

-- A call and what was promised of it: the same error, or the same reply with states that agree.
pub data Agrees {V : Type 0} (capacity : ℕ) (r : Result (Option V × FixedMap V))
    (s : Result (Option V × FiniteMap V)) : Type 0 where
  both_fail : (e : Error) → r ≡ err e → s ≡ err e → Agrees capacity r s
  both_reply :
      (o : Option V) (m : FixedMap V) (a : FiniteMap V)
      → r ≡ ok (o, m)
      → s ≡ ok (o, a)
      → Represents capacity m a
      → Agrees capacity r s

-- Any failure becomes the panic of `expect`.
abbrev pub or_panic : {A : Type 0} → Result A → Result A
or_panic (ok r) = ok r
or_panic (err e) = err (panic "must be success")

module _ {K V : Type 0} (to_key : K → ℕ) (capacity : ℕ) (zeroed : V) where
  unfoldable pub step : FixedMap V → Command K V → Result (Option V × FixedMap V)
  step m (look_up k) = do v ← get to_key capacity zeroed m k; ok (v, m)
  step m (put k v new) = insert_with_options to_key capacity zeroed m k v new
  step m (overwrite k v) = insert to_key capacity zeroed m k v
  step m (modify k f) = do m' ← get_mut to_key capacity zeroed m k f; ok (none, m')
  step m delete_all = do m' ← clear to_key capacity zeroed m; ok (none, m')
  step m (delete k) = remove to_key capacity zeroed m k

  unfoldable pub step_spec : FiniteMap V → Command K V → Result (Option V × FiniteMap V)
  unfolding put_spec modify_spec delete_spec
  step_spec a (look_up k) = ok (a.at (to_key k), a)
  step_spec a (put k v new) = put_spec capacity a (to_key k) v new
  step_spec a (overwrite k v) = or_panic (put_spec capacity a (to_key k) v false)
  step_spec a (modify k f) = modify_spec a (to_key k) f
  step_spec a delete_all = ok (none, new_map)
  step_spec a (delete k) = delete_spec capacity a (to_key k)

  -- The replies to a list of commands, up to the first error.
  unfoldable pub run : FixedMap V → List (Command K V) → Result (List (Option V))
  unfolding step
  run m [] = ok []
  run m (c ∷ cs) = do r ← step m c; rest ← run r.1 cs; ok (r.0 ∷ rest)

  unfoldable pub run_spec : FiniteMap V → List (Command K V) → Result (List (Option V))
  unfolding step_spec
  run_spec a [] = ok []
  run_spec a (c ∷ cs) = do r ← step_spec a c; rest ← run_spec r.1 cs; ok (r.0 ∷ rest)

  no_entries :
      (d : List (Entry V))
      → length d ≡ capacity
      → Represents capacity (record { slots = d; count = 0 }) new_map
  no_entries d len = record {
    valid = record {
      size = len;
      within = omega arith;
      sorted = λ i j a b lt live p q. absurd (omega arith);
    };
    counted = refl;
    sound = λ j e live p. absurd (omega arith);
    complete = λ key v h. cc;
  }

  module _ (m : FixedMap V) (a : FiniteMap V) (r : Represents capacity m a) where
    get_lem : (k : K) → get to_key capacity zeroed m k ≡ ok (a.at (to_key k))
    unfolding get
    get_lem k = elim (binary_search-Ends m (to_key k) r.valid) [
      | at_key i e f ↦ rw e (rw (read_lem m.slots i f.at) (rw (at-Found r i (to_key k) f)))
      | between i e f ↦ rw e (rw (at-Vacant r i (to_key k) f))
    ]

    put-Agrees :
        (k : K) (v : V) (new : Bool)
        → Agrees capacity
            (insert_with_options to_key capacity zeroed m k v new)
            (put_spec capacity a (to_key k) v new)
    unfolding insert_with_options put_spec
    put-Agrees k v new = elim (binary_search-Ends m (to_key k) r.valid) [
      | at_key i e f ↦
          let (run_replace, valid) =
            replace_lem to_key capacity zeroed m r.valid i (to_key k) v f in
          rw e (
            rw (at-Found r i (to_key k) f, put_spec)
              (elim (Bool-cases new) [
                | inl only_new ↦ rw only_new (both_fail _ refl refl)
                | inr either ↦ rw either (
                    rw run_replace
                      (both_reply _ _ _ refl refl (Replaced-Represents r i (to_key k) v f valid)))
              ]))
      | between i e f ↦ rw e (
          rw (at-Vacant r i (to_key k) f, put_spec)
            (rw (← r.counted) (elim (Bool-cases (leb capacity m.count)) [
              | inl full ↦ rw full (both_fail _ refl refl)
              | inr room ↦
                  let (d, run_insert, at, valid) =
                    insert_at_lem to_key capacity zeroed m r.valid i (to_key k) v f
                      (leb→lt _ _ room) in
                  rw room (
                    rw run_insert (
                      both_reply _ _ _ refl refl
                        (Inserted-Represents r i (to_key k) v d f at valid)))
            ])))
    ]

    delete-Agrees :
        (k : K)
        → Agrees capacity (remove to_key capacity zeroed m k) (delete_spec capacity a (to_key k))
    unfolding remove delete_spec
    delete-Agrees k = elim (binary_search-Ends m (to_key k) r.valid) [
      | at_key i e f ↦ rw e (
          rw (at-Found r i (to_key k) f, delete_spec)
            (rw (← r.counted) (elim (Bool-cases (leb capacity m.count)) [
              | inl full ↦
                  let le = leb→le _ _ full in
                  let within = r.valid.within in
                  rw full (
                    both_fail _
                      (remove_at_full to_key capacity zeroed m r.valid i (to_key k) f (omega arith))
                      refl)
              | inr room ↦
                  let (d, run_remove, at, valid) =
                    remove_at_lem to_key capacity zeroed m r.valid i (to_key k) f
                      (leb→lt _ _ room) in
                  rw room (
                    rw run_remove
                      (both_reply _ _ _ refl refl (Removed-Represents r i (to_key k) d f at valid)))
            ])))
      | between i e f ↦
          rw e (rw (at-Vacant r i (to_key k) f, delete_spec) (both_reply _ _ _ refl refl r))
    ]

    overwrite-Agrees :
        (k : K) (v : V)
        → Agrees capacity
            (insert to_key capacity zeroed m k v)
            (or_panic (put_spec capacity a (to_key k) v false))
    unfolding insert expect_success
    overwrite-Agrees k v = elim (put-Agrees k v false) [
      | both_fail e p q ↦ rw p (rw q (both_fail _ refl refl))
      | both_reply o m' a' p q r' ↦ rw p (rw q (both_reply _ _ _ refl refl r'))
    ]

    modify-Agrees :
        (k : K) (f : V → V) → Agrees capacity (step m (modify k f)) (step_spec a (modify k f))
    unfolding step step_spec get_mut modify_spec
    modify-Agrees k f = elim (binary_search-Ends m (to_key k) r.valid) [
      | at_key i e at ↦
          let v = f at.entry.value in
          let valid = (replace_lem to_key capacity zeroed m r.valid i (to_key k) v at).1 in
          rw e (
            rw (at-Found r i (to_key k) at, modify_spec)
              (rw (read_lem m.slots i at.at)
                (both_reply _ _ _ refl refl (Replaced-Represents r i (to_key k) v at valid))))
      | between i e at ↦
          rw e (rw (at-Vacant r i (to_key k) at, modify_spec) (both_reply _ _ _ refl refl r))
    ]

    clear-Agrees : Agrees capacity (step m delete_all) (step_spec a delete_all)
    unfolding step step_spec clear
    clear-Agrees =
        let size = r.valid.size in
        let within = r.valid.within in
        let none_left = default_entry to_key capacity zeroed in
        let (d, run_clear, len) = clear_slots_lem none_left 0 m.count m.slots (omega arith) in
        rw run_clear (both_reply _ _ _ refl refl (no_entries d (omega arith)))

    step-Agrees : (c : Command K V) → Agrees capacity (step m c) (step_spec a c)
    unfolding step step_spec
    step-Agrees (look_up k) = rw (get_lem k) (both_reply _ _ _ refl refl r)
    step-Agrees (put k v new) = put-Agrees k v new
    step-Agrees (overwrite k v) = overwrite-Agrees k v
    step-Agrees (modify k f) = modify-Agrees k f
    step-Agrees (delete k) = delete-Agrees k
    step-Agrees delete_all = clear-Agrees

  run-eq-run_spec :
      (cs : List (Command K V)) (m : FixedMap V) (a : FiniteMap V)
      → Represents capacity m a
      → run m cs ≡ run_spec a cs
  unfolding run run_spec
  run-eq-run_spec [] m a r = refl
  run-eq-run_spec (c ∷ cs) m a r = elim (step-Agrees m a r c) [
    | both_fail e p q ↦ rw p (rw q)
    | both_reply o m' a' p q r' ↦ rw p (rw q (rw (run-eq-run_spec cs m' a' r')))
  ]

  empty-Represents : Represents capacity (empty to_key capacity zeroed) new_map
  unfolding empty
  empty-Represents = no_entries _ (length-replicate capacity (default_entry to_key capacity zeroed))

  -- Any list of calls on a new fixed map gives the same replies, or the same first error, as on a finite
  -- map of at most `capacity` keys, whatever the keys, the capacity and the order of the calls. There, a
  -- look-up gives the value of the key. An insertion overwrites it and replies with the old value, fails
  -- if only a new key was asked for, and fails for a new key when the map is full; `insert` panics where
  -- it fails. Access to a value changes it, and clearing forgets all keys. A removal forgets the key and
  -- replies with its value, and panics if the key is there and the map is full.
  pub fixed_map_refines :
      (cs : List (Command K V)) → run (empty to_key capacity zeroed) cs ≡ run_spec new_map cs
  fixed_map_refines cs = run-eq-run_spec cs _ _ empty-Represents

  -- On every full map whose live slots are sorted, the removal of a key that one of the slots holds
  -- panics: it reads past the end of the array.
  pub remove_full_panics :
      (m : FixedMap V) (k : K) (j : ℕ) (e : Entry V)
      → IsValid capacity m
      → m.count ≡ capacity
      → j < m.count
      → get_elem? m.slots j ≡ some e
      → e.key ≡ to_key k
      → remove to_key capacity zeroed m k ≡ err (panic "index out of bounds")
  unfolding remove
  remove_full_panics m k j e valid full live at same =
      elim (binary_search-Ends m (to_key k) valid) [
        | at_key i p f ↦ rw p (remove_at_full to_key capacity zeroed m valid i (to_key k) f full)
        | between i p f ↦ elim (Bool-cases (ltb j i)) [
          | inl below ↦ absurd (let lt = f.before j e (ltb→lt j i below) at in omega arith)
          | inr above ↦ absurd (let lt = f.after j e (ltb→le j i above) live at in omega arith)
        ]
      ]
