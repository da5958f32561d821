-- ===== src/Timer/Queue.antt =====
-- The order of the timer queue of kernel/src/timer.c, for any key of a timer.
use dsls_os.Base.{
  ℕ, ◌+◌, ◌-◌, ◌≤◌, ◌≡◌, ◌≢◌, refl, arith, List, [], ◌∷◌, ltb, ◌==◌, if◌then◌else◌, Bool-cases, inl,
  inr,
}
use dsls_os.Base.Entries.{occurrences, remove_entry}

-- The search and the InsertTailList of KeInsertTimerIntoQueue.
unfoldable pub insert : (ℕ → ℕ) → ℕ → List ℕ → List ℕ
insert key t [] = t ∷ []
insert key t (x ∷ xs) = if ltb (key t) (key x) then t ∷ x ∷ xs else x ∷ insert key t xs

abbrev pub AllAtLeast : (ℕ → ℕ) → ℕ → List ℕ → Type 0
AllAtLeast key b [] = Unit {0}
AllAtLeast key b (x ∷ xs) = (b ≤ key x) × AllAtLeast key b xs

abbrev pub IsSorted : (ℕ → ℕ) → List ℕ → Type 0
IsSorted key [] = Unit {0}
IsSorted key (x ∷ xs) = AllAtLeast key (key x) xs × IsSorted key xs

-- How far the keys of a list lag behind `now`.
unfoldable pub lag : (ℕ → ℕ) → ℕ → List ℕ → ℕ
lag key now [] = 0
lag key now (x ∷ xs) = (now + 1 - key x) + lag key now xs

pub AllAtLeast-le :
    (key : ℕ → ℕ) (a b : ℕ) (xs : List ℕ) → a ≤ b → AllAtLeast key b xs → AllAtLeast key a xs
AllAtLeast-le key a b [] h s = tt
AllAtLeast-le key a b (x ∷ xs) h s = (omega (arith, s.0), AllAtLeast-le key a b xs h s.1)

AllAtLeast-insert :
    (key : ℕ → ℕ) (t b : ℕ) (xs : List ℕ)
    → b ≤ key t
    → AllAtLeast key b xs
    → AllAtLeast key b (insert key t xs)
unfolding insert
AllAtLeast-insert key t b [] h s = (h, tt)
AllAtLeast-insert key t b (x ∷ xs) h s = elim (Bool-cases (ltb (key t) (key x))) [
  | inl e ↦ rw e (h, s)
  | inr e ↦ rw e (s.0, AllAtLeast-insert key t b xs h s.1)
]

pub insert-IsSorted :
    (key : ℕ → ℕ) (t : ℕ) (xs : List ℕ) → IsSorted key xs → IsSorted key (insert key t xs)
unfolding insert
insert-IsSorted key t [] s = (tt, tt)
insert-IsSorted key t (x ∷ xs) s = elim (Bool-cases (ltb (key t) (key x))) [
  | inl e ↦ rw e ((ground arith, AllAtLeast-le key (key t) (key x) xs (ground arith) s.0), s)
  | inr e ↦
      rw e (AllAtLeast-insert key t (key x) xs (ground arith) s.0, insert-IsSorted key t xs s.1)
]

pub occurrences-insert :
    (key : ℕ → ℕ) (t j : ℕ) (xs : List ℕ)
    → occurrences j (insert key t xs) ≡ (if t == j then 1 else 0) + occurrences j xs
unfolding occurrences insert
occurrences-insert key t j [] = refl
occurrences-insert key t j (x ∷ xs) = ground (arith, occurrences-insert key t j xs)

pub lag-insert :
    (key : ℕ → ℕ) (t now : ℕ) (xs : List ℕ)
    → lag key now (insert key t xs) ≡ (now + 1 - key t) + lag key now xs
unfolding lag insert
lag-insert key t now [] = refl
lag-insert key t now (x ∷ xs) = ground (arith, lag-insert key t now xs)

pub remove_entry-insert :
    (key : ℕ → ℕ) (t : ℕ) (xs : List ℕ)
    → occurrences t xs ≡ 0
    → remove_entry t (insert key t xs) ≡ xs
unfolding remove_entry insert occurrences
remove_entry-insert key t [] h = ground arith
remove_entry-insert key t (x ∷ xs) h = ground (arith, remove_entry-insert key t xs)

AllAtLeast-remove_entry :
    (key : ℕ → ℕ) (t b : ℕ) (xs : List ℕ)
    → AllAtLeast key b xs
    → AllAtLeast key b (remove_entry t xs)
unfolding remove_entry
AllAtLeast-remove_entry key t b [] s = tt
AllAtLeast-remove_entry key t b (x ∷ xs) s = elim (Bool-cases (x == t)) [
  | inl e ↦ rw e (s.1)
  | inr e ↦ rw e (s.0, AllAtLeast-remove_entry key t b xs s.1)
]

pub remove_entry-IsSorted :
    (key : ℕ → ℕ) (t : ℕ) (xs : List ℕ) → IsSorted key xs → IsSorted key (remove_entry t xs)
unfolding remove_entry
remove_entry-IsSorted key t [] s = tt
remove_entry-IsSorted key t (x ∷ xs) s = elim (Bool-cases (x == t)) [
  | inl e ↦ rw e (s.1)
  | inr e ↦ rw e (AllAtLeast-remove_entry key t (key x) xs s.0, remove_entry-IsSorted key t xs s.1)
]

-- Two keys that agree off `t` give the same order and lag to a list without `t`.
module _ (key key' : ℕ → ℕ) (t : ℕ) (same : (j : ℕ) → j ≢ t → key' j ≡ key j) where
  AllAtLeast-key :
      (b : ℕ) (xs : List ℕ) → occurrences t xs ≡ 0 → AllAtLeast key b xs → AllAtLeast key' b xs
  unfolding occurrences
  AllAtLeast-key b [] h s = tt
  AllAtLeast-key b (x ∷ xs) h s =
      let e : key' x ≡ key x = same x (λ e. ground arith) in
      (omega (arith, s.0, e), AllAtLeast-key b xs (omega arith) s.1)

  pub IsSorted-key : (xs : List ℕ) → occurrences t xs ≡ 0 → IsSorted key xs → IsSorted key' xs
  unfolding occurrences
  IsSorted-key [] h s = tt
  IsSorted-key (x ∷ xs) h s =
      let e : key' x ≡ key x = same x (λ e. ground arith) in
      (
        AllAtLeast-le key' (key' x) (key x) xs (omega (arith, e))
            (AllAtLeast-key (key x) xs (omega arith) s.0),
        IsSorted-key xs (omega arith) s.1,
      )

  pub lag-key : (now : ℕ) (xs : List ℕ) → occurrences t xs ≡ 0 → lag key' now xs ≡ lag key now xs
  unfolding occurrences lag
  lag-key now [] h = refl
  lag-key now (x ∷ xs) h =
      let e : key' x ≡ key x = same x (λ e. ground arith) in
      let rest : lag key' now xs ≡ lag key now xs = lag-key now xs (omega arith) in
      rw (e, rest) refl
