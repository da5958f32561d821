-- ===== src/Drivers/Names.antt =====
-- Strings and searches in lists, as the loops of kernel/src/driver_interface.c do them.
use dsls_os.Base.{
  ℕ, ◌≡◌, refl, ap₂, arith, Bool, true, false, ◌&&◌, List, [], ◌∷◌, ◌==◌, ==→eq, ==_refl,
  Bool-cases, inl, inr,
}

-- A string of WCHARs, without the zero at its end.
abbrev pub Name : Type 0
Name = List ℕ

-- `wcscmp(a, b) == 0`
unfoldable pub same_name : Name → Name → Bool
same_name [] [] = true
same_name (x ∷ xs) (y ∷ ys) = x == y && same_name xs ys
same_name _ _ = false

pub same_name-eq : (a b : Name) → same_name a b ≡ true → a ≡ b
unfolding same_name
same_name-eq [] [] e = refl
same_name-eq [] (y ∷ ys) e = cc
same_name-eq (x ∷ xs) [] e = cc
same_name-eq (x ∷ xs) (y ∷ ys) e = elim (Bool-cases (x == y)) [
  | inl h ↦
      ap₂ (λ (z : ℕ) (zs : Name). z ∷ zs) (==→eq x y h) (same_name-eq xs ys (ground (arith, e)))
  | inr h ↦ ground (arith, e, h)
]

pub same_name_refl : (a : Name) → same_name a a ≡ true
unfolding same_name
same_name_refl [] = refl
same_name_refl (x ∷ xs) = rw (==_refl x, same_name_refl xs) refl
