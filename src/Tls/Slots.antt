-- ===== src/Tls/Slots.antt =====
-- TmGetTlsValue, TmSetTlsValue and TmFreeTls against each other.
use dsls_os.Base.{
  ℕ, zero, suc, ◌<◌, ◌≤◌, ◌≡◌, refl, sym, ◌∙◌, arith, some, List, ◌==◌, ltb, if◌then◌else◌,
  Bool-cases, inl, inr, length, length-set, get_or, set, get_or-set_self, get_or-set_ne, min,
  success, ==→eq,
}
use dsls_os.Tls.{Thread, accessible, get_tls_value, set_tls_value, lower_max, free_tls}
use dsls_os.Tls.Invariant.{IsSoundArray}

module _ (t : Thread) (slots : List ℕ) (i : ℕ) (held : t.tls_array ≡ some slots) where
  accessible-inside : i ≤ t.max_tls_index → accessible t t.tls_array i ≡ some slots
  unfolding accessible
  accessible-inside h = rw held (ground arith)

  set_tls_value-run :
      (value : ℕ)
      → i ≤ t.max_tls_index
      → set_tls_value t i value ≡ (success, record t { tls_array = some (set slots i value) })
  unfolding set_tls_value
  set_tls_value-run value h = rw (accessible-inside h) refl

  get_tls_value-run : get_tls_value t i ≡ (if ltb t.max_tls_index i then 0 else get_or slots i 0)
  unfolding get_tls_value accessible
  get_tls_value-run = rw held (ground arith)

-- With a thread's slots in order, TmSetTlsValue of an index up to MaxTlsIndex reports success, and
-- after it TmGetTlsValue gives the new value at that index and the old value at every other one.
pub get_tls_value-set_tls_value :
    (t : Thread) (slots : List ℕ) (i j value : ℕ)
    → t.tls_array ≡ some slots
    → IsSoundArray t slots
    → i ≤ t.max_tls_index
    → ((set_tls_value t i value).0 ≡ success)
      × (get_tls_value (set_tls_value t i value).1 j
          ≡ (if i == j then value else get_tls_value t j))
get_tls_value-set_tls_value t slots i j value e c h =
    let r = record t { tls_array = some (set slots i value) } in
    rw (set_tls_value-run t slots i e value h) (
      refl,
      get_tls_value-run r (set slots i value) j refl ∙ elim (Bool-cases (i == j)) [
        | inl s ↦
            rw (s, ← ==→eq i j s, get_or-set_self slots i value 0 (omega (arith, c.max_inside)))
              (ground arith)
        | inr s ↦
            rw (s, get_or-set_ne slots i j value 0 (ground arith))
              (sym (get_tls_value-run t slots j e))
      ],
    )

lower_max-le : (slots : List ℕ) (n : ℕ) → lower_max slots n ≤ n
unfolding lower_max
lower_max-le slots zero = omega arith
lower_max-le slots (suc n) = ground (arith, lower_max-le slots n)

-- The slots that MaxTlsIndex no longer reaches are empty.
lower_max_empty : (slots : List ℕ) (n j : ℕ) → lower_max slots n < j → j < n → get_or slots j 0 ≡ 0
unfolding lower_max
lower_max_empty slots zero j a b = absurd (omega arith)
lower_max_empty slots (suc n) j a b = elim (Bool-cases (get_or slots n 0 == 0)) [
  | inl e ↦ elim (Bool-cases (j == n)) [
    | inl s ↦ ground arith
    | inr s ↦ lower_max_empty slots n j (ground arith) (ground arith)
  ]
  | inr e ↦ absurd (ground arith)
]

-- MaxTlsIndex after TmFreeTls.
abbrev lowered : Thread → List ℕ → ℕ → ℕ
lowered t slots i =
    if i == t.max_tls_index then lower_max (set slots i 0) t.max_tls_index else t.max_tls_index

abbrev freed : Thread → List ℕ → ℕ → Thread
freed t slots i = record t {
  tls_array = some (set slots i 0);
  max_tls_index = lowered t slots i;
  last_tls_search_index = min i t.last_tls_search_index;
}

lowered-le : (t : Thread) (slots : List ℕ) (i : ℕ) → lowered t slots i ≤ t.max_tls_index
lowered-le t slots i = ground (arith, lower_max-le (set slots i 0) t.max_tls_index)

-- Beyond the lowered MaxTlsIndex every slot is empty.
lowered_empty :
    (t : Thread) (slots : List ℕ) (i j : ℕ)
    → IsSoundArray t slots
    → i ≤ t.max_tls_index
    → lowered t slots i < j
    → get_or (set slots i 0) j 0 ≡ 0
lowered_empty t slots i j c h b = elim (Bool-cases (i == j)) [
  | inl s ↦ rw (← ==→eq i j s) (get_or-set_self slots i 0 0 (omega (arith, c.max_inside)))
  | inr s ↦ elim (Bool-cases (ltb j t.max_tls_index)) [
    | inl l ↦ elim (Bool-cases (i == t.max_tls_index)) [
      | inl m ↦ lower_max_empty (set slots i 0) t.max_tls_index j (ground arith) (ground arith)
      | inr m ↦ absurd (ground arith)
    ]
    | inr l ↦ get_or-set_ne slots i j 0 0 (ground arith) ∙ c.empty_above j (ground arith)
  ]
]

free_tls-run :
    (t : Thread) (slots : List ℕ) (i : ℕ)
    → t.tls_array ≡ some slots
    → i ≤ t.max_tls_index
    → free_tls t i ≡ (success, freed t slots i)
unfolding free_tls
free_tls-run t slots i e h = rw (accessible-inside t slots i e h) refl

freed-IsSoundArray :
    (t : Thread) (slots : List ℕ) (i : ℕ)
    → IsSoundArray t slots
    → i ≤ t.max_tls_index
    → IsSoundArray (freed t slots i) (set slots i 0)
freed-IsSoundArray t slots i c h =
    let small = lowered-le t slots i in
    let l : length (set slots i 0) ≡ length slots = length-set slots i 0 in
    record {
      sized = omega (arith, l, c.sized);
      bounded = omega (arith, l, c.bounded);
      max_inside = omega (arith, l, c.max_inside);
      search_inside = omega (arith, l, c.search_inside);
      empty_above = λ j b. lowered_empty t slots i j c h b;
    }

-- The bound on the index hides nothing, since the slots beyond it are empty.
get_tls_value-eq-get_or :
    (t : Thread) (slots : List ℕ) (j : ℕ)
    → t.tls_array ≡ some slots
    → IsSoundArray t slots
    → get_tls_value t j ≡ get_or slots j 0
get_tls_value-eq-get_or t slots j e c =
    get_tls_value-run t slots j e ∙ elim (Bool-cases (ltb t.max_tls_index j)) [
      | inl l ↦ rw l (sym (c.empty_above j (ground arith)))
      | inr l ↦ rw l refl
    ]

-- With a thread's slots in order, TmFreeTls of an index up to MaxTlsIndex reports success and
-- leaves the slots in order; after it TmGetTlsValue gives NULL at that index and the old value at
-- every other one, though MaxTlsIndex may be lower.
pub get_tls_value-free_tls :
    (t : Thread) (slots : List ℕ) (i : ℕ)
    → t.tls_array ≡ some slots
    → IsSoundArray t slots
    → i ≤ t.max_tls_index
    → ((free_tls t i).0 ≡ success)
      × IsSoundArray (free_tls t i).1 (set slots i 0)
      × ((j : ℕ) → get_tls_value (free_tls t i).1 j ≡ (if i == j then 0 else get_tls_value t j))
get_tls_value-free_tls t slots i e c h =
    let sound = freed-IsSoundArray t slots i c h in
    rw (free_tls-run t slots i e h) (
      refl,
      sound,
      λ j.
          get_tls_value-eq-get_or (freed t slots i) (set slots i 0) j refl sound
          ∙ elim (Bool-cases (i == j)) [
            | inl s ↦
                rw (s, ← ==→eq i j s) (get_or-set_self slots i 0 0 (omega (arith, c.max_inside)))
            | inr s ↦
                rw (s, get_or-set_ne slots i j 0 0 (ground arith))
                  (sym (get_tls_value-eq-get_or t slots j e c))
          ],
    )
