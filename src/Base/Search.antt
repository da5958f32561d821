-- ===== src/Base/Search.antt =====
-- Searches in lists, as the loops over linked lists do them, and sums over lists.
use Prim.Native.Nat.{ℕ, zero, suc, ◌+◌}
use mathlib.Core.Path.{◌≡◌, refl, ap}
use mathlib.Core.Logic.{inl, inr}
use mathlib.Core.Bool.{Bool, true, false}
use mathlib.Core.Option.{Option, none, some}
use mathlib.Core.List.{List, [], ◌∷◌, ◌++◌}
use native.Mathlib.Omega.{arith}
use dsls_os.Base.Lists.{length}
use dsls_os.Base.Tests.{Bool-cases, if◌then◌else◌}

-- The first entry that passes a test.
unfoldable pub find_first : {A : Type 0} → (A → Bool) → List A → Option A
find_first p [] = none
find_first p (x ∷ xs) = if p x then some x else find_first p xs

abbrev pub with_head : {A : Type 0} → A → Option (A × List A) → Option (A × List A)
with_head x none = none
with_head x (some (y, rest)) = some (y, x ∷ rest)

-- The first entry that passes a test, and the list without it.
unfoldable pub take_first : {A : Type 0} → (A → Bool) → List A → Option (A × List A)
take_first p [] = none
take_first p (x ∷ xs) = if p x then some (x, xs) else with_head x (take_first p xs)

-- The list with a change of the first entry that passes a test.
unfoldable pub update_first : {A : Type 0} → (A → Bool) → (A → A) → List A → List A
update_first p f [] = []
update_first p f (x ∷ xs) = if p x then f x ∷ xs else x ∷ update_first p f xs

-- The first `n` entries, and those that pass a test.
unfoldable pub take : {A : Type 0} → ℕ → List A → List A
take zero xs = []
take (suc n) [] = []
take (suc n) (x ∷ xs) = x ∷ take n xs

unfoldable pub filter : {A : Type 0} → (A → Bool) → List A → List A
filter p [] = []
filter p (x ∷ xs) = if p x then x ∷ filter p xs else filter p xs

-- The sum of a number over a list.
unfoldable pub total : {A : Type 0} → (A → ℕ) → List A → ℕ
total f [] = 0
total f (x ∷ xs) = f x + total f xs

pub total-append :
    {A : Type 0} (f : A → ℕ) (xs : List A) (y : A) → total f (xs ++ y ∷ []) ≡ total f xs + f y
unfolding total
total-append f [] y = omega arith
total-append f (x ∷ xs) y = omega (arith, total-append f xs y)

module _ {A : Type 0} (p : A → Bool) where
  -- What `take_first` finds: `x` passes the test and is what the list has more than `rest`.
  pub data Taken (xs : List A) : Option (A × List A) → Type 0 where
    absent : find_first p xs ≡ none → Taken xs none
    taken :
        (x : A) (rest : List A)
        → p x ≡ true
        → length xs ≡ suc (length rest)
        → ((f : A → ℕ) → total f xs ≡ f x + total f rest)
        → Taken xs (some (x, rest))

  longer :
      (x : A) (xs : List A) (o : Option (A × List A))
      → p x ≡ false
      → Taken xs o
      → Taken (x ∷ xs) (with_head x o)
  unfolding find_first total
  longer x xs o e (absent none_left) = absent (rw e none_left)
  longer x xs o e (taken y rest t l sums) =
      taken y (x ∷ rest) t (ap suc l) (λ f. omega (arith, sums f))

  pub take_first-Taken : (xs : List A) → Taken xs (take_first p xs)
  unfolding take_first find_first total
  take_first-Taken [] = absent refl
  take_first-Taken (x ∷ xs) = elim (Bool-cases (p x)) [
    | inl e ↦ rw e (taken x xs e refl (λ f. refl))
    | inr e ↦ rw e (longer x xs (take_first p xs) e (take_first-Taken xs))
  ]

  -- A change of one entry keeps the length, and the sums of what it does not change.
  pub length-update_first : (g : A → A) (xs : List A) → length (update_first p g xs) ≡ length xs
  unfolding update_first
  length-update_first g [] = refl
  length-update_first g (x ∷ xs) = elim (Bool-cases (p x)) [
    | inl e ↦ rw e refl
    | inr e ↦ rw e (ap suc (length-update_first g xs))
  ]

  pub total-update_first :
      (f : A → ℕ) (g : A → A) (xs : List A)
      → ((x : A) → f (g x) ≡ f x)
      → total f (update_first p g xs) ≡ total f xs
  unfolding update_first total
  total-update_first f g [] same = refl
  total-update_first f g (x ∷ xs) same = elim (Bool-cases (p x)) [
    | inl e ↦ rw e (omega (arith, same x))
    | inr e ↦ rw e (omega (arith, total-update_first f g xs same))
  ]
