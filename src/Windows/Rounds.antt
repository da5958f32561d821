-- ===== src/Windows/Rounds.antt =====
-- The loop of UiDestroyWindow of kernel/src/composite_ui.c over the controls ends: each round takes one out.
use dsls_os.Base.{
  ℕ, zero, suc, ◌≤◌, ◌≡◌, refl, ap, arith, Bool, not, Option, none, some, List, [], ◌∷◌, ◌==◌,
  Status, length, Bool-cases, inl, inr, either,
}
use dsls_os.Base.Search.{find_first, update_first, Taken, absent, taken, take_first-Taken}
use dsls_os.Windows.{Control, Window, Ui, has_id, find_window, change_window}
use dsls_os.Windows.Controls.{
  with_controls, remove_control, count_lowered, destroy_in, destroy_found, destroy_control,
  controls_in, controls_of, destroy_next, destroy_controls, find_control, has_control_id,
  without_in,
}

-- How many controls the window `id` has.
abbrev room : ℕ → List Window → ℕ
room id ws = length (controls_in (find_first (has_id id) ws))

room-update_first :
    (id : ℕ) (p : Window → Bool) (f : Window → Window) (ws : List Window)
    → ((w : Window) → (f w).window_id ≡ w.window_id)
    → ((w : Window) → length (f w).controls ≤ length w.controls)
    → room id (update_first p f ws) ≤ room id ws
unfolding find_first update_first
room-update_first id p f [] same fewer = omega arith
room-update_first id p f (w ∷ ws) same fewer = elim (Bool-cases (p w)) [
  | inl e ↦ rw e (ground (arith, same w, fewer w))
  | inr e ↦ rw e (ground (arith, room-update_first id p f ws same fewer))
]

room-remove_control : (id k : ℕ) (ws : List Window) → room id (remove_control k ws) ≤ room id ws
unfolding find_first remove_control
room-remove_control id k [] = omega arith
room-remove_control id k (w ∷ ws) =
    smaller (take_first-Taken (has_control_id k) w.controls) (room-remove_control id k ws)
  where
    smaller :
        {o : Option (Control × List Control)}
        → Taken (has_control_id k) w.controls o
        → room id (remove_control k ws) ≤ room id ws
        → room id (without_in w ws (remove_control k ws) o) ≤ room id (w ∷ ws)
    smaller (absent _) rest = ground (arith, rest)
    smaller (taken c cs _ l _) rest = ground (arith, l)

room_dropped :
    (id : ℕ) (cs : List Control) (ws : List Window)
    → room id (update_first (has_id id) (with_controls cs) ws) ≤ length cs
unfolding find_first update_first
room_dropped id cs [] = omega arith
room_dropped id cs (w ∷ ws) = elim (Bool-cases (w.window_id == id)) [
  | inl e ↦ rw e (ground (arith, e))
  | inr e ↦ rw e (ground (arith, e, room_dropped id cs ws))
]

room-destroy_control :
    (id k : ℕ) (s : Ui) → room id (destroy_control s k).1.windows ≤ room id s.windows
unfolding destroy_control
room-destroy_control id k s =
    either (λ (r : Status × Ui). room id r.1.windows ≤ room id s.windows) (not s.initialized) _ _
      (omega arith) (found (find_control k s.windows))
  where
    inside :
        (c : Control) (o : Option Window) → room id (destroy_in s c o).1.windows ≤ room id s.windows
    inside c none = omega arith
    inside c (some parent) = omega (
      arith,
      room-remove_control id c.control_id s.windows,
      room-update_first id (has_id c.parent_window_id) count_lowered
          (remove_control c.control_id s.windows) (λ w. refl) (λ w. omega arith),
    )

    found : (o : Option Control) → room id (destroy_found s o).1.windows ≤ room id s.windows
    found none = omega arith
    found (some c) = inside c (find_window s c.parent_window_id)

none_left : {A : Type 0} (xs : List A) → length xs ≤ 0 → xs ≡ []
none_left [] h = refl
none_left (x ∷ xs) h = absurd (omega (arith, h))

-- With as many rounds as the window has controls, the loop of UiDestroyWindow ends with no control left.
pub destroy_controls-drained :
    (fuel id : ℕ) (s : Ui)
    → length (controls_of s id) ≤ fuel
    → controls_of (destroy_controls fuel id s) id ≡ []
unfolding destroy_controls
destroy_controls-drained zero id s h = none_left (controls_of s id) h
destroy_controls-drained (suc fuel) id s h =
    next (controls_of s id) refl (destroy_controls-drained fuel id)
  where
    next :
        (cs : List Control)
        → controls_of s id ≡ cs
        → ((r : Ui)
            → length (controls_of r id) ≤ fuel
            → controls_of (destroy_controls fuel id r) id ≡ [])
        → controls_of (destroy_next id s (destroy_controls fuel id) cs) id ≡ []
    next [] e rest = e
    next (c ∷ cs) e rest =
        let dropped = change_window s id (with_controls cs) in
        let before : length (controls_of s id) ≡ suc (length cs) = ap length e in
        rest (destroy_control dropped c.control_id).1 (
          omega (
            arith,
            h,
            before,
            room_dropped id cs s.windows,
            room-destroy_control id c.control_id dropped,
          ))
