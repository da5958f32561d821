-- ===== src/Windows/Registry.antt =====
-- What the changes of the lists of windows in kernel/src/composite_ui.c keep.
use dsls_os.Base.{
  ℕ, suc, ◌%◌, ◌<◌, ◌≡◌, refl, sym, ap, ◌∙◌, subst, arith, false, Option, none, some, List, [], ◌∷◌,
  ◌++◌, ◌==◌, ◌⊎◌, if◌then◌else◌, ulong_mod, inc32, length, length-append, Bool-cases, inl, inr,
  either, otherwise, provided,
}
use dsls_os.Base.Entries.{remove_entry, occurrences, occurrences-append, occurrences-remove_entry}
use dsls_os.Base.Search.{find_first}
use dsls_os.Windows.{Window, Ui, add_window, has_id, find_window, change_window}
use dsls_os.Windows.Controls.{remove_window}
use dsls_os.Windows.Frames.{
  ids, ids-append, IsFramed, AllFramed, AllFramed-append, IsKept, update_first-IsKept,
  without-IsWithout,
}

-- The number is 0, or a window of the list has it.
abbrev pub IsListedId : ℕ → List ℕ → Type 0
IsListedId id is = (id ≡ 0) ⊎ (0 < occurrences id is)

-- Both lists link the same windows, in the same order; the count is their length; the active and the
-- focused window are in the lists, if there are such; and the frame of every window agrees with its
-- position and size.
pub record IsListed (s : Ui) : Type 0 where
  pub linked : s.window_list ≡ ids s.windows
  pub counted : s.window_count ≡ length s.window_list % ulong_mod
  pub active : IsListedId s.active_window_id s.window_list
  pub focused : IsListedId s.focused_window_id s.window_list
  pub framed : AllFramed s.windows

appended : (id j : ℕ) (is : List ℕ) → IsListedId id is → IsListedId id (is ++ j ∷ [])
appended id j is (inl z) = inl z
appended id j is (inr h) = inr (omega (arith, h, occurrences-append j id is))

is_last : (j : ℕ) (is : List ℕ) → IsListedId j (is ++ j ∷ [])
is_last j is = inr (ground (arith, occurrences-append j j is))

-- The active window after the window `j` was deactivated and taken out of the list.
taken_out :
    (id j : ℕ) (is : List ℕ)
    → IsListedId id is
    → IsListedId (if id == j then 0 else id) (remove_entry j is)
taken_out id j is (inl z) = inl (ground (arith, z))
taken_out id j is (inr h) = elim (Bool-cases (id == j)) [
  | inl e ↦ rw e (inl refl)
  | inr e ↦ rw e (inr (ground (arith, h, e, occurrences-remove_entry j id is)))
]

length-remove_listed :
    (j : ℕ) (is : List ℕ) → 0 < occurrences j is → length is ≡ suc (length (remove_entry j is))
unfolding occurrences remove_entry
length-remove_listed j [] h = absurd (omega (arith, h))
length-remove_listed j (i ∷ is) h = elim (Bool-cases (i == j)) [
  | inl e ↦ rw e refl
  | inr e ↦ rw e (ap suc (length-remove_listed j is (ground (arith, h, e))))
]

found_listed :
    (id : ℕ) (ws : List Window) (w : Window)
    → find_first (has_id id) ws ≡ some w
    → 0 < occurrences id (ids ws)
unfolding find_first occurrences
found_listed id [] w e = cc
found_listed id (v ∷ ws) w e = elim (Bool-cases (v.window_id == id)) [
  | inl h ↦ ground (arith, h)
  | inr h ↦ omega (arith, found_listed id ws w (passed v h ∙ e))
]
  where
    passed :
        (v : Window)
        → (v.window_id == id) ≡ false
        → find_first (has_id id) ws ≡ find_first (has_id id) (v ∷ ws)
    passed v h = rw h refl

module _ (s : Ui) (q : IsListed s) where
  -- Changes of the windows that keep their numbers and frames.
  pub kept-IsListed :
      (ws : List Window) → IsKept s.windows ws → IsListed (record s { windows = ws })
  kept-IsListed ws k = record {
    linked = q.linked ∙ sym k.same_ids;
    counted = q.counted;
    active = q.active;
    focused = q.focused;
    framed = k.frames q.framed;
  }

  pub change_window-IsListed :
      (id : ℕ) (f : Window → Window)
      → ((w : Window) → (f w).window_id ≡ w.window_id)
      → ((w : Window) → IsFramed w → IsFramed (f w))
      → IsListed (change_window s id f)
  change_window-IsListed id f same framed =
      kept-IsListed _ (update_first-IsKept (has_id id) f s.windows same framed)

  pub found_in_list :
      (id : ℕ) (w : Window) → find_window s id ≡ some w → 0 < occurrences id s.window_list
  found_in_list id w e = elim (Bool-cases s.initialized) [
    | inl i ↦
        subst (λ is. 0 < occurrences id is) (sym q.linked)
          (found_listed id s.windows w
            (provided (λ o. find_first (has_id id) s.windows ≡ o) s.initialized _ _ i refl ∙ e))
    | inr i ↦
        let gone : find_window s id ≡ none =
          otherwise (λ (o : Option Window). o ≡ none) s.initialized _ _ i refl in
        absurd cc
  ]

  pub add_window-IsListed : (w : Window) → IsFramed w → IsListed (add_window s w)
  add_window-IsListed w f =
      either IsListed (inc32 s.window_count == 1) _ _
        (record {
          linked = links;
          counted = counts;
          active = is_last w.window_id s.window_list;
          focused = is_last w.window_id s.window_list;
          framed = AllFramed-append s.windows w q.framed f;
        })
        (record {
          linked = links;
          counted = counts;
          active = appended s.active_window_id w.window_id s.window_list q.active;
          focused = appended s.focused_window_id w.window_id s.window_list q.focused;
          framed = AllFramed-append s.windows w q.framed f;
        })
    where
      links : s.window_list ++ w.window_id ∷ [] ≡ ids (s.windows ++ w ∷ [])
      links = ap (λ (is : List ℕ). is ++ w.window_id ∷ []) q.linked ∙ sym (ids-append s.windows w)

      counts : inc32 s.window_count ≡ length (s.window_list ++ w.window_id ∷ []) % ulong_mod
      counts = omega (arith, q.counted, length-append s.window_list (w.window_id ∷ []))

  pub remove_window-IsListed :
      (id : ℕ) → 0 < occurrences id s.window_list → IsListed (remove_window s id)
  remove_window-IsListed id h =
      let r = without-IsWithout id s.windows in
      record {
        linked = ap (remove_entry id) q.linked ∙ sym r.removed_ids;
        counted = omega (arith, q.counted, length-remove_listed id s.window_list h);
        active = taken_out s.active_window_id id s.window_list q.active;
        focused = taken_out s.focused_window_id id s.window_list q.focused;
        framed = r.frames q.framed;
      }
