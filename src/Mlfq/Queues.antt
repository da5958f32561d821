-- ===== src/Mlfq/Queues.antt =====
-- What the queues of kernel/src/advanced_scheduler.c should hold, for any way of saying where a
-- thread belongs, and what taking a thread out of a queue and putting one in does to that.
use dsls_os.Base.{
  store, ℕ, suc, ◌+◌, ◌≤◌, ◌≡◌, refl, sym, ap, ◌∙◌, arith, true, List, [], ◌∷◌, ◌++◌, ◌==◌,
  if◌then◌else◌, Bool-cases, inl, inr, ==→eq, ==_refl, ◌≢◌, ne→==, length, length-append, inc32,
  dec32, ulong_mod, ◌%◌,
}
use dsls_os.Base.Entries.{occurrences, occurrences-append}

-- The places a thread can have: none is 0, the real-time queue 1, and level `i` is `i + 2`.
abbrev pub once_at : ℕ → ℕ → ℕ
once_at k place = if place == k then 1 else 0

pub record IsQueued (queues : ℕ → List ℕ) (lengths : ℕ → ℕ) (real_time_queue : List ℕ)
    (real_time_length : ℕ) (place : ℕ → ℕ) : Type 0 where
  pub counted : (i : ℕ) → lengths i ≡ length (queues i) % ulong_mod
  pub placed : (i t : ℕ) → occurrences t (queues i) ≡ once_at (i + 2) (place t)
  pub counted_real_time : real_time_length ≡ length real_time_queue % ulong_mod
  pub placed_real_time : (t : ℕ) → occurrences t real_time_queue ≡ once_at 1 (place t)

-- `rest` is `queue` without the thread `t`, which stood in it.
pub record IsWithout (t : ℕ) (queue rest : List ℕ) : Type 0 where
  pub shorter : length queue ≡ suc (length rest)
  pub others : (u : ℕ) → occurrences u queue ≡ (if t == u then 1 else 0) + occurrences u rest

-- A property of all values of a function but one, and of the value that replaces it.
pub store_all :
    {A : Type 0} (P : ℕ → A → Type 0) (f : ℕ → A) (i : ℕ) (v : A)
    → ((j : ℕ) → P j (f j))
    → P i v
    → (j : ℕ) → P j (store f i v j)
store_all P f i v all one j = elim (Bool-cases (i == j)) [
  | inl e ↦ rw (e, ← ==→eq i j e) one
  | inr e ↦ rw e (all j)
]

module _ (queues : ℕ → List ℕ) (lengths : ℕ → ℕ) (rt : List ℕ) (n : ℕ) (place : ℕ → ℕ) where
  pub at_place :
      (i t : ℕ) (rest : List ℕ)
      → IsQueued queues lengths rt n place
      → IsWithout t (queues i) rest
      → place t ≡ i + 2
  at_place i t rest q w = elim (Bool-cases (place t == i + 2)) [
    | inl e ↦ ==→eq _ _ e
    | inr e ↦
        let some : 1 ≤ occurrences t (queues i) = rw (w.others t, ==_refl t) (omega arith) in
        let none : occurrences t (queues i) ≡ 0 = q.placed i t ∙ rw e refl in
        absurd (omega (arith, some, none))
  ]

  pub pull :
      (i t : ℕ) (rest : List ℕ)
      → IsQueued queues lengths rt n place
      → IsWithout t (queues i) rest
      → IsQueued (store queues i rest) (store lengths i (dec32 (lengths i))) rt n (store place t 0)
  pull i t rest q w =
      let here : (u : ℕ) → t == u ≡ true → place u ≡ i + 2 =
        λ u f. ap place (sym (==→eq t u f)) ∙ at_place i t rest q w in
      record {
        counted = λ j. elim (Bool-cases (i == j)) [
          | inl e ↦ rw e (omega (arith, q.counted i, w.shorter))
          | inr e ↦ rw e (q.counted j)
        ];
        placed = λ j u. elim (Bool-cases (t == u)) [
          | inl f ↦ elim (Bool-cases (i == j)) [
            | inl e ↦ rw (e, f) (ground (arith, w.others u, q.placed i u, here u f))
            | inr e ↦ rw (e, f) (ground (arith, q.placed j u, here u f))
          ]
          | inr f ↦ elim (Bool-cases (i == j)) [
            | inl e ↦ rw (e, f) (ground (arith, w.others u, q.placed i u))
            | inr e ↦ rw (e, f) (q.placed j u)
          ]
        ];
        counted_real_time = q.counted_real_time;
        placed_real_time = λ u. elim (Bool-cases (t == u)) [
          | inl f ↦ rw f (ground (arith, q.placed_real_time u, here u f))
          | inr f ↦ rw f (q.placed_real_time u)
        ];
      }

  pub pull_real_time :
      (t : ℕ) (rest : List ℕ)
      → IsQueued queues lengths rt n place
      → IsWithout t rt rest
      → IsQueued queues lengths rest (dec32 n) (store place t 0)
  pull_real_time t rest q w =
      let one : place t ≡ 1 = ground (arith, q.placed_real_time t, w.others t) in
      let here : (u : ℕ) → t == u ≡ true → place u ≡ 1 =
        λ u f. ap place (sym (==→eq t u f)) ∙ one in
      record {
        counted = q.counted;
        placed = λ j u. elim (Bool-cases (t == u)) [
          | inl f ↦ rw f (ground (arith, q.placed j u, here u f))
          | inr f ↦ rw f (q.placed j u)
        ];
        counted_real_time = omega (arith, q.counted_real_time, w.shorter);
        placed_real_time = λ u. elim (Bool-cases (t == u)) [
          | inl f ↦ rw f (ground (arith, q.placed_real_time u, w.others u, here u f))
          | inr f ↦ rw f (ground (arith, q.placed_real_time u, w.others u))
        ];
      }

  pub push :
      (i t : ℕ)
      → IsQueued queues lengths rt n place
      → place t ≡ 0
      → IsQueued
          (store queues i (queues i ++ t ∷ []))
          (store lengths i (inc32 (lengths i)))
          rt
          n
          (store place t (i + 2))
  push i t q z =
      let here : (u : ℕ) → t == u ≡ true → place u ≡ 0 = λ u f. ap place (sym (==→eq t u f)) ∙ z in
      record {
        counted = λ j. elim (Bool-cases (i == j)) [
          | inl e ↦ rw e (omega (arith, q.counted i, length-append (queues i) (t ∷ [])))
          | inr e ↦ rw e (q.counted j)
        ];
        placed = λ j u. elim (Bool-cases (t == u)) [
          | inl f ↦ elim (Bool-cases (i == j)) [
            | inl e ↦
                rw (e, f)
                  (ground (arith, occurrences-append t u (queues i), q.placed i u, here u f))
            | inr e ↦ rw (e, f) (ground (arith, q.placed j u, here u f))
          ]
          | inr f ↦ elim (Bool-cases (i == j)) [
            | inl e ↦ rw (e, f) (ground (arith, occurrences-append t u (queues i), q.placed i u))
            | inr e ↦ rw (e, f) (q.placed j u)
          ]
        ];
        counted_real_time = q.counted_real_time;
        placed_real_time = λ u. elim (Bool-cases (t == u)) [
          | inl f ↦ rw f (ground (arith, q.placed_real_time u, here u f))
          | inr f ↦ rw f (q.placed_real_time u)
        ];
      }

  pub push_real_time :
      (t : ℕ)
      → IsQueued queues lengths rt n place
      → place t ≡ 0
      → IsQueued queues lengths (rt ++ t ∷ []) (inc32 n) (store place t 1)
  push_real_time t q z =
      let here : (u : ℕ) → t == u ≡ true → place u ≡ 0 = λ u f. ap place (sym (==→eq t u f)) ∙ z in
      record {
        counted = q.counted;
        placed = λ j u. elim (Bool-cases (t == u)) [
          | inl f ↦ rw f (ground (arith, q.placed j u, here u f))
          | inr f ↦ rw f (q.placed j u)
        ];
        counted_real_time = omega (arith, q.counted_real_time, length-append rt (t ∷ []));
        placed_real_time = λ u. elim (Bool-cases (t == u)) [
          | inl f ↦ rw f (ground (arith, occurrences-append t u rt, q.placed_real_time u, here u f))
          | inr f ↦ rw f (ground (arith, occurrences-append t u rt, q.placed_real_time u))
        ];
      }

  pub occurrences_at :
      (i t : ℕ)
      → IsQueued queues lengths rt n place
      → place t ≡ i + 2
      → occurrences t (queues i) ≡ 1
  occurrences_at i t q e = ground (arith, q.placed i t)

  pub occurrences_elsewhere :
      (i t : ℕ)
      → IsQueued queues lengths rt n place
      → place t ≢ i + 2
      → occurrences t (queues i) ≡ 0
  occurrences_elsewhere i t q ne = q.placed i t ∙ rw (ne→== _ _ ne) refl

  pub occurrences_real_time :
      (t : ℕ) → IsQueued queues lengths rt n place → place t ≡ 1 → occurrences t rt ≡ 1
  occurrences_real_time t q e = ground (arith, q.placed_real_time t)

  pub occurrences_not_real_time :
      (t : ℕ) → IsQueued queues lengths rt n place → place t ≢ 1 → occurrences t rt ≡ 0
  occurrences_not_real_time t q ne = q.placed_real_time t ∙ rw (ne→== _ _ ne) refl

-- The same queues and places, given by other functions.
pub IsQueued-same :
    {queues queues' : ℕ → List ℕ} {lengths lengths' : ℕ → ℕ} {rt rt' : List ℕ} {n : ℕ}
    {place place' : ℕ → ℕ}
    → ((i : ℕ) → queues i ≡ queues' i)
    → ((i : ℕ) → lengths i ≡ lengths' i)
    → rt ≡ rt'
    → ((t : ℕ) → place t ≡ place' t)
    → IsQueued queues lengths rt n place
    → IsQueued queues' lengths' rt' n place'
IsQueued-same eq el er ep q = record {
  counted = λ i. sym (el i) ∙ q.counted i ∙ ap (λ l. length l % ulong_mod) (eq i);
  placed = λ i t. ap (occurrences t) (sym (eq i)) ∙ q.placed i t ∙ ap (once_at (i + 2)) (ep t);
  counted_real_time = q.counted_real_time ∙ ap (λ l. length l % ulong_mod) er;
  placed_real_time =
      λ t. ap (occurrences t) (sym er) ∙ q.placed_real_time t ∙ ap (once_at 1) (ep t);
}
