-- ===== src/Mlfq/Boosts.antt =====
-- What KiAgeThreads leaves in the queues.
use mathlib.Core.List.{append_assoc, append-nil}
use dsls_os.Base.{
  store, ℕ, zero, suc, ◌+◌, ◌≡◌, refl, sym, ap, ◌∙◌, subst, arith, true, false, Option, none, some,
  List, [], ◌∷◌, ◌++◌, ◌==◌, leb, if◌then◌else◌, Bool-cases, inl, inr, ==→eq, ==_refl,
}
use dsls_os.Base.Entries.{occurrences}
use dsls_os.Mlfq.{Priorities, Thread, Scheduler, level_of}
use dsls_os.Mlfq.Ageing.{
  is_starved, boosted, boost, is_last, age_queue, age_levels, age_threads, then_on,
}
use dsls_os.Mlfq.Queues.{IsQueued, IsWithout, IsQueued-same, pull, push, at_place}
use dsls_os.Mlfq.Places.{IsSound, IsConsistent, place_of, place_of-store, place_of-unmarked}

middle-IsWithout : (t : ℕ) (xs ys : List ℕ) → IsWithout t (xs ++ t ∷ ys) (xs ++ ys)
unfolding occurrences
middle-IsWithout t [] ys = record { shorter = refl; others = λ u. refl }
middle-IsWithout t (x ∷ xs) ys =
    let later = middle-IsWithout t xs ys in
    record { shorter = ap suc later.shorter; others = λ u. omega (arith, later.others u) }

-- The queues during a walk over the queue of level `i`, which is `xs` at the moment.
abbrev IsWalking : Priorities → Scheduler → ℕ → List ℕ → Type 0
IsWalking c s i xs =
    IsQueued (store s.queues i xs) s.queue_lengths s.real_time_queue s.real_time_queue_length
      (λ t. place_of c (s.threads t))

-- The places of a thread that is taken out and put in again.
moved_places : (place : ℕ → ℕ) (t k u : ℕ) → store (store place t 0) t k u ≡ store place t k u
moved_places place t k u = elim (Bool-cases (t == u)) [ inl e ↦ rw e refl | inr e ↦ rw e refl ]

moved_queues :
    (queues : ℕ → List ℕ) (i j t : ℕ) (queue rest xs : List ℕ)
    → xs ≡ (if j == i then rest ++ t ∷ [] else rest)
    → (k : ℕ)
    → let out = store (store queues i queue) i rest in
      store out j (out j ++ t ∷ []) k
      ≡ store (if j == i then queues else store queues j (queues j ++ t ∷ [])) i xs k
moved_queues queues i j t queue rest xs e k = elim (Bool-cases (j == i)) [
  | inl same ↦
      let end : xs ≡ rest ++ t ∷ [] = e ∙ rw same refl in
      elim (Bool-cases (i == k)) [
        | inl f ↦ rw (==→eq j i same, ==_refl i, f) (sym end)
        | inr f ↦ rw (==→eq j i same, ==_refl i, f) refl
      ]
  | inr other ↦
      let kept : xs ≡ rest = e ∙ rw other refl in
      let apart : (i == j) ≡ false = ground (arith, other) in
      elim (Bool-cases (i == k)) [
        | inl f ↦
            let aside : (j == k) ≡ false = ground (arith, other, f) in
            rw (other, aside, f) (sym kept)
        | inr f ↦ elim (Bool-cases (j == k)) [
          | inl h ↦ rw (other, apart, f, h) refl
          | inr h ↦ rw (other, f, h) refl
        ]
      ]
]

if_last :
    {A : Type 0} (P : A → Type 0) (ts : List ℕ) (x y : A)
    → (ts ≡ [] → P x)
    → P y
    → P (if is_last ts then x else y)
if_last P [] x y f p = f refl
if_last P (t ∷ ts) x y f p = p

store_same : (queues : ℕ → List ℕ) (i k : ℕ) → queues k ≡ store queues i (queues i) k
store_same queues i k = elim (Bool-cases (i == k)) [
  | inl e ↦ rw (e, ==→eq i k e) refl
  | inr e ↦ rw e refl
]

-- A thread that has a level is marked.
marked_at :
    (c : Priorities) (t : Thread) (i : ℕ) → place_of c t ≡ i + 2 → t.in_scheduler_queue ≡ true
marked_at c t i e = elim (Bool-cases t.in_scheduler_queue) [
  | inl m ↦ m
  | inr m ↦ absurd (omega (arith, e, place_of-unmarked c t m))
]

-- What a walk leaves, when it ends.
abbrev pub Left : Priorities → Option Scheduler → Type 0
Left c none = Unit {0}
Left c (some r) = IsConsistent c r

module _ (c : Priorities) (sound : IsSound c) (now : ℕ) where
  boost-IsWalking :
      (s : Scheduler) (i t : ℕ) (passed ts xs : List ℕ)
      → IsWalking c s i (passed ++ t ∷ ts)
      → xs ≡ (
          if level_of c (boosted c (s.threads t).priority) == i
          then (passed ++ ts) ++ t ∷ []
          else passed ++ ts)
      → IsWalking c (boost c s i t) i xs
  unfolding boost
  boost-IsWalking s i t passed ts xs q ex =
      let p = boosted c (s.threads t).priority in
      let j = level_of c p in
      let queue = passed ++ t ∷ ts in
      let rest = passed ++ ts in
      let without : IsWithout t (store s.queues i queue i) rest =
        rw (==_refl i) (middle-IsWithout t passed ts) in
      let marked = marked_at c (s.threads t) i (at_place _ _ _ _ _ i t rest q without) in
      let out = pull _ _ _ _ _ i t rest q without in
      let back = push _ _ _ _ _ j t out (rw (==_refl t) refl) in
      let low : leb c.real_time p ≡ false = ground (arith, sound.no_boost) in
      IsQueued-same (moved_queues s.queues i j t queue rest xs ex) (λ k. refl) refl
        (λ u.
          moved_places (λ u. place_of c (s.threads u)) t (j + 2) u
          ∙ place_of-store c s.threads t (j + 2) _ (rw (marked, low) refl) u)
        back

  then_on-Left :
      (r : Option Scheduler) (f : Scheduler → Option Scheduler)
      → Left c r
      → ((x : Scheduler) → IsConsistent c x → Left c (f x))
      → Left c (then_on r f)
  then_on-Left none f l g = tt
  then_on-Left (some x) f l g = g x l

  age_queue-Left :
      (fuel : ℕ) (s : Scheduler) (i : ℕ) (passed queue : List ℕ)
      → IsWalking c s i (passed ++ queue)
      → Left c (age_queue fuel c s now i passed queue)
  unfolding age_queue
  age_queue-Left zero s i passed queue q = tt
  age_queue-Left (suc fuel) s i passed [] q = subst (IsWalking c s i) (append-nil passed) q
  age_queue-Left (suc fuel) s i passed (t ∷ ts) q =
      let one = t ∷ [] in
      elim (Bool-cases (is_starved s now t)) [
        | inr e ↦ rw e (
            age_queue-Left fuel s i (passed ++ one) ts
              (subst (IsWalking c s i) (sym (append_assoc passed one ts)) q))
        | inl e ↦ elim (Bool-cases (level_of c (boosted c (s.threads t).priority) == i)) [
          | inl same ↦
              rw (e, same)
                (if_last (Left c) ts _ _
                  (λ l. age_queue-Left fuel (boost c s i t) i (passed ++ one) [] (
                    boost-IsWalking s i t passed ts _ q
                      (rw (same, l, append-nil passed) (append-nil (passed ++ one)))))
                  (age_queue-Left fuel (boost c s i t) i passed (ts ++ one) (
                    boost-IsWalking s i t passed ts _ q
                      (rw same (sym (append_assoc passed ts one))))))
          | inr other ↦
              rw (e, other)
                (age_queue-Left fuel (boost c s i t) i passed ts
                  (boost-IsWalking s i t passed ts _ q (rw other refl)))
        ]
      ]

  age_levels-Left :
      (fuel left i : ℕ) (s : Scheduler) → IsConsistent c s → Left c (age_levels fuel c now left i s)
  unfolding age_levels
  age_levels-Left fuel zero i s q = q
  age_levels-Left fuel (suc left) i s q =
      then_on-Left (age_queue fuel c s now i [] (s.queues i)) (age_levels fuel c now left (i + 1))
        (age_queue-Left fuel s i [] (s.queues i)
          (IsQueued-same (store_same s.queues i) (λ k. refl) refl (λ u. refl) q))
        (λ r k. age_levels-Left fuel left (i + 1) r k)

  -- KiAgeThreads keeps every thread where it belongs, when it ends.
  pub age_threads-Left :
      (fuel : ℕ) (s : Scheduler) → IsConsistent c s → Left c (age_threads fuel c now s)
  unfolding age_threads
  age_threads-Left fuel s q = age_levels-Left fuel _ 1 s q
