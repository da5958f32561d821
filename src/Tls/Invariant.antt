-- ===== src/Tls/Invariant.antt =====
-- The invariant of a thread's slots, and TmAllocateTls.
use dsls_os.Base.{
  get_or_beyond, ℕ, zero, suc, ◌+◌, ◌-◌, ◌*◌, ◌/◌, ◌<◌, ◌≤◌, ◌≡◌, ◌≢◌, refl, sym, ap, ◌∙◌, subst,
  arith, Bool, true, Option, none, some, List, [], ◌∷◌, ◌++◌, ◌==◌, leb, ltb, Bool-cases, inl, inr,
  length, get_or, replicate, length-append, length-replicate, get_or-replicate, Status, success,
  no_more_entries, insufficient_resources, inc32,
}
use dsls_os.Tls.{
  Thread, tls_slot_size, tls_max_slots, tls_initial_slots, find_empty, hand_out, expanded, expand,
  allocate_low, allocate_high, allocate_slot, allocate_array, allocate_tls, fresh_array,
}

-- The slots of a thread with an array.
pub record IsSoundArray (t : Thread) (slots : List ℕ) : Type 0 where
  pub sized : t.tls_size ≡ length slots * tls_slot_size
  pub bounded : length slots ≤ tls_max_slots
  pub max_inside : t.max_tls_index < length slots
  pub search_inside : t.last_tls_search_index ≤ length slots
  pub empty_above : (j : ℕ) → t.max_tls_index < j → get_or slots j 0 ≡ 0

abbrev pub IsSoundFor : Thread → Option (List ℕ) → Type 0
IsSoundFor t none = Unit {0}
IsSoundFor t (some slots) = IsSoundArray t slots

abbrev pub IsSound : Thread → Type 0
IsSound t = IsSoundFor t t.tls_array

data Found (slots : List ℕ) (left i : ℕ) : Option ℕ → Type 0 where
  found_at : (k : ℕ) → i ≤ k → k < i + left → get_or slots k 0 ≡ 0 → Found slots left i (some k)
  nothing : ((k : ℕ) → i ≤ k → k < i + left → get_or slots k 0 ≢ 0) → Found slots left i none

Found-suc :
    (slots : List ℕ) (left i : ℕ) (r : Option ℕ)
    → get_or slots i 0 ≢ 0
    → Found slots left (i + 1) r
    → Found slots (suc left) i r
Found-suc slots left i r ne (found_at k a b e) = found_at k (omega arith) (omega arith) e
Found-suc slots left i r ne (nothing h) = nothing (λ k a b e. elim (Bool-cases (i == k)) [
  | inl same ↦ ne (ground arith)
  | inr other ↦ h k (ground arith) (omega arith) e
])

find_empty-Found : (slots : List ℕ) (left i : ℕ) → Found slots left i (find_empty slots left i)
unfolding find_empty
find_empty-Found slots zero i = nothing (λ k a b e. absurd (omega arith))
find_empty-Found slots (suc left) i = elim (Bool-cases (get_or slots i 0 == 0)) [
  | inl e ↦ rw e (found_at i (omega arith) (omega arith) (ground arith))
  | inr e ↦ rw e (Found-suc slots left i _ (ground arith) (find_empty-Found slots left (i + 1)))
]

-- What TmAllocateTls does to a thread with the array `slots`.
pub data Outcome (t : Thread) (slots : List ℕ) : Status × Option ℕ × Thread → Type 0 where
  handed :
      (i : ℕ) (t' : Thread) (slots' : List ℕ)
      → t'.tls_array ≡ some slots'
      → IsSoundArray t' slots'
      → get_or slots' i 0 ≡ 0
      → i ≤ t'.max_tls_index
      → ((j : ℕ) → get_or slots' j 0 ≡ get_or slots j 0)
      → Outcome t slots (success, some i, t')
  exhausted :
      ((j : ℕ) → j < length slots → get_or slots j 0 ≢ 0)
      → length slots ≡ tls_max_slots
      → Outcome t slots (no_more_entries, none, t)
  no_pool :
      ((j : ℕ) → j < length slots → get_or slots j 0 ≢ 0)
      → Outcome t slots (insufficient_resources, none, t)

hand_out-Outcome :
    (t : Thread) (slots : List ℕ) (i : ℕ)
    → t.tls_array ≡ some slots
    → IsSoundArray t slots
    → i < length slots
    → get_or slots i 0 ≡ 0
    → Outcome t slots (success, some i, hand_out t i)
hand_out-Outcome t slots i e c inside empty =
    handed i (hand_out t i) slots e
      (record {
        sized = c.sized;
        bounded = c.bounded;
        max_inside = omega (arith, c.max_inside);
        search_inside = omega arith;
        empty_above = λ j h. c.empty_above j (omega arith);
      })
      empty (omega arith) (λ j. refl)

get_or-append_zeros : (xs : List ℕ) (n j : ℕ) → get_or (xs ++ replicate n 0) j 0 ≡ get_or xs j 0
get_or-append_zeros [] n j = get_or-replicate n j 0
get_or-append_zeros (x ∷ xs) n zero = refl
get_or-append_zeros (x ∷ xs) n (suc j) = get_or-append_zeros xs n j

expand-Outcome :
    (pool : ℕ → Bool) (t : Thread) (slots : List ℕ)
    → IsSoundArray t slots
    → ((j : ℕ) → j < length slots → get_or slots j 0 ≢ 0)
    → Outcome t slots (expand pool t slots (length slots))
unfolding expand
expand-Outcome pool t slots c full = elim (Bool-cases (leb tls_max_slots (length slots))) [
  | inl e ↦ rw e (exhausted full (ground (arith, c.bounded)))
  | inr e ↦ elim (Bool-cases (pool (expanded (length slots) * tls_slot_size))) [
    | inl p ↦
        rw (e, p)
          (handed (length slots) _ (slots ++ replicate (expanded (length slots) - length slots) 0)
            refl
            (let n = expanded (length slots) - length slots in
              let more : length slots < tls_max_slots = ground arith in
              let l : length (slots ++ replicate n 0) ≡ length slots + n =
                length-append slots (replicate n 0)
                ∙ ap (λ k. length slots + k) (length-replicate n 0) in
              record {
                sized = omega (arith, l);
                bounded = omega (arith, l);
                max_inside = omega (arith, l);
                search_inside = omega (arith, l);
                empty_above =
                    λ j h. get_or-append_zeros slots n j ∙ get_or_beyond slots j 0 (omega arith);
              })
            (get_or-append_zeros slots _ (length slots)
              ∙ get_or_beyond slots (length slots) 0 (omega arith))
            (omega arith) (get_or-append_zeros slots _))
    | inr p ↦ rw (e, p) (no_pool full)
  ]
]

module _ (pool : ℕ → Bool) (t : Thread) (slots : List ℕ) (held : t.tls_array ≡ some slots)
    (c : IsSoundArray t slots) where
  slot_count : t.tls_size / tls_slot_size ≡ length slots
  slot_count = omega (arith, c.sized)

  allocate_low-Outcome :
      (r : Option ℕ)
      → Found slots t.last_tls_search_index 0 r
      → ((j : ℕ) → t.last_tls_search_index ≤ j → j < length slots → get_or slots j 0 ≢ 0)
      → Outcome t slots (allocate_low pool t slots r)
  unfolding allocate_low
  allocate_low-Outcome r (found_at k a b e) high =
      hand_out-Outcome t slots k held c (omega (arith, c.search_inside)) e
  allocate_low-Outcome r (nothing low) high = rw slot_count (
      expand-Outcome pool t slots c (λ j h. elim (Bool-cases (ltb j t.last_tls_search_index)) [
        | inl l ↦ low j (omega arith) (ground arith)
        | inr l ↦ high j (ground arith) h
      ]))

  allocate_high-Outcome :
      (r : Option ℕ)
      → Found slots (length slots - t.last_tls_search_index) t.last_tls_search_index r
      → Outcome t slots (allocate_high pool t slots r)
  unfolding allocate_high
  allocate_high-Outcome r (found_at k a b e) =
      hand_out-Outcome t slots k held c (omega (arith, c.search_inside)) e
  allocate_high-Outcome r (nothing high) =
      allocate_low-Outcome (find_empty slots t.last_tls_search_index 0)
        (find_empty-Found slots t.last_tls_search_index 0) (λ j a b. high j a (omega arith))

  allocate_slot-Outcome : Outcome t slots (allocate_slot pool t slots)
  unfolding allocate_slot
  allocate_slot-Outcome = rw slot_count (
      allocate_high-Outcome _
        (find_empty-Found slots (length slots - t.last_tls_search_index) t.last_tls_search_index))

fresh-IsSoundArray : IsSoundArray fresh_array (replicate tls_initial_slots 0)
fresh-IsSoundArray = record {
  sized = refl;
  bounded = omega arith;
  max_inside = omega arith;
  search_inside = omega arith;
  empty_above = λ j h. get_or-replicate tls_initial_slots j 0;
}

-- TmAllocateTls of a thread whose slots are in order has one of three outcomes. It hands out a
-- slot: the slot is within the array and up to MaxTlsIndex, its value is NULL, the slots are in
-- order again, and every slot has the value that it had. It reports that there are no more
-- entries: then the array has 1024 slots and no value in it is NULL. Or the pool gives no memory for
-- a longer array: then no value of the array is NULL. In the last two the thread is unchanged.
pub allocate_tls-Outcome :
    (pool : ℕ → Bool) (t : Thread) (slots : List ℕ) (total : ℕ)
    → t.tls_array ≡ some slots
    → IsSoundArray t slots
    → Outcome t slots (
      (allocate_tls pool t total).0,
      (allocate_tls pool t total).1,
      (allocate_tls pool t total).2,
    )
unfolding allocate_tls allocate_array
allocate_tls-Outcome pool t slots total e c =
    subst
      (λ a.
        Outcome t slots
          ((allocate_array pool t a).0, (allocate_array pool t a).1, (allocate_array pool t a).2))
      (sym e) (allocate_slot-Outcome pool t slots e c)

-- The first TmAllocateTls of a thread, which has no array yet: when the pool gives the array, it
-- reports success and hands out slot 0 of 64 slots, and counts the allocation.
pub allocate_tls_first :
    (pool : ℕ → Bool) (t : Thread) (total : ℕ)
    → t.tls_array ≡ none
    → pool 512 ≡ true
    → allocate_tls pool t total ≡ (success, some 0, hand_out fresh_array 0, inc32 total)
unfolding allocate_tls allocate_array allocate_slot allocate_high find_empty
allocate_tls_first pool t total e p = rw (e, p) refl
