-- ===== src/Base/Entries.antt =====
-- Doubly linked lists of entries, by what names an entry: RemoveEntryList, and how often a name
-- stands in a list.
use Prim.Native.Nat.{ℕ, suc, ◌+◌, ◌-◌}
use mathlib.Core.Path.{◌≡◌, refl, ap}
use mathlib.Core.List.{List, [], ◌∷◌, ◌++◌}
use mathlib.Core.Logic.{inl, inr}
use dsls_os.Base.Lists.{length}
use native.Mathlib.Omega.{arith}
use dsls_os.Base.Tests.{Bool-cases, ◌==◌, if◌then◌else◌}

-- RemoveEntryList of the entry `i`.
unfoldable pub remove_entry : ℕ → List ℕ → List ℕ
remove_entry i [] = []
remove_entry i (x ∷ xs) = if x == i then xs else x ∷ remove_entry i xs

-- How often `i` stands in a list.
unfoldable pub occurrences : ℕ → List ℕ → ℕ
occurrences i [] = 0
occurrences i (x ∷ xs) = (if x == i then 1 else 0) + occurrences i xs

pub occurrences-remove_entry :
    (i j : ℕ) (xs : List ℕ)
    → occurrences j (remove_entry i xs) ≡ occurrences j xs - (if i == j then 1 else 0)
unfolding occurrences remove_entry
occurrences-remove_entry i j [] = omega arith
occurrences-remove_entry i j (x ∷ xs) = ground (arith, occurrences-remove_entry i j xs)

pub occurrences-append :
    (i j : ℕ) (xs : List ℕ)
    → occurrences j (xs ++ i ∷ []) ≡ occurrences j xs + (if i == j then 1 else 0)
unfolding occurrences
occurrences-append i j [] = omega arith
occurrences-append i j (x ∷ xs) = omega (arith, occurrences-append i j xs)

pub length-remove_entry :
    (t : ℕ) (xs : List ℕ) → occurrences t xs ≡ 1 → length xs ≡ suc (length (remove_entry t xs))
unfolding occurrences remove_entry
length-remove_entry t [] e = absurd (omega arith)
length-remove_entry t (x ∷ xs) e = elim (Bool-cases (x == t)) [
  | inl h ↦ rw h refl
  | inr h ↦ rw h (ap suc (length-remove_entry t xs (ground arith)))
]
