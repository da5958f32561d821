-- ===== src/Windows/Leak.antt =====
-- What UiDestroyWindow of kernel/src/composite_ui.c does to the blocks of the pool.
use dsls_os.Base.{
  ℕ, zero, suc, ◌+◌, ◌-◌, ◌≤◌, ◌≡◌, refl, sym, ap, ◌∙◌, subst, arith, true, false, not, none, some,
  List, [], ◌∷◌, ◌==◌, if◌then◌else◌, Status, success, map, length, Bool-cases, inl, inr, either,
  otherwise,
}
use dsls_os.Base.Entries.{occurrences}
use dsls_os.Base.Search.{find_first, update_first}
use dsls_os.Windows.{Control, Window, Ui, has_id, find_window, change_window, is_destroyed}
use dsls_os.Windows.Controls.{
  with_controls, destroy_control, controls_in, controls_of, destroy_next, destroy_controls,
  destroy_window_found, destroy_window, find_control, has_control_id,
}

-- In how many places of the lists of controls a number stands.
unfoldable pub holders : ℕ → List Window → ℕ
holders j [] = 0
holders j (w ∷ ws) = occurrences j (map (λ (c : Control). c.control_id) w.controls) + holders j ws

nowhere :
    (j : ℕ) (cs : List Control)
    → occurrences j (map (λ (c : Control). c.control_id) cs) ≡ 0
    → find_first (has_control_id j) cs ≡ none
unfolding find_first occurrences
nowhere j [] h = refl
nowhere j (c ∷ cs) h = elim (Bool-cases (c.control_id == j)) [
  | inl e ↦ absurd (ground (arith, h, e))
  | inr e ↦ rw e (nowhere j cs (ground (arith, h, e)))
]

not_held : (j : ℕ) (ws : List Window) → holders j ws ≡ 0 → find_control j ws ≡ none
unfolding find_control holders
not_held j [] h = refl
not_held j (w ∷ ws) h =
    rw (nowhere j w.controls (omega (arith, h))) (not_held j ws (omega (arith, h)))

-- Taking the first control of the window `id` out takes its number out of one place.
holders_dropped :
    (id j : ℕ) (c : Control) (cs : List Control) (ws : List Window)
    → controls_in (find_first (has_id id) ws) ≡ c ∷ cs
    → holders j (update_first (has_id id) (with_controls cs) ws)
        + (if c.control_id == j then 1 else 0)
      ≡ holders j ws
unfolding find_first update_first holders occurrences
holders_dropped id j c cs [] e = absurd cc
holders_dropped id j c cs (w ∷ ws) e = elim (Bool-cases (w.window_id == id)) [
  | inl h ↦
      let here : w.controls ≡ c ∷ cs = sym (first w h) ∙ e in
      let count = ap (λ ds. occurrences j (map (λ (d : Control). d.control_id) ds)) here in
      rw h (omega (arith, count))
  | inr h ↦ rw h (omega (arith, holders_dropped id j c cs ws (sym (rest w h) ∙ e)))
]
  where
    first :
        (w : Window)
        → (w.window_id == id) ≡ true
        → controls_in (find_first (has_id id) (w ∷ ws)) ≡ w.controls
    first w h = rw h refl

    rest :
        (w : Window)
        → (w.window_id == id) ≡ false
        → controls_in (find_first (has_id id) (w ∷ ws)) ≡ controls_in (find_first (has_id id) ws)
    rest w h = rw h refl

-- UiDestroyControl of a number that stands nowhere changes nothing.
destroy_control-nothing : (s : Ui) (j : ℕ) → holders j s.windows ≡ 0 → (destroy_control s j).1 ≡ s
unfolding destroy_control
destroy_control-nothing s j h =
    either (λ (r : Status × Ui). r.1 ≡ s) (not s.initialized) _ _ refl
      (rw (not_held j s.windows h) refl)

destroy_controls-blocks :
    (fuel id : ℕ) (s : Ui)
    → ((j : ℕ) → holders j s.windows ≤ 1)
    → (destroy_controls fuel id s).blocks ≡ s.blocks
unfolding destroy_controls
destroy_controls-blocks zero id s once = refl
destroy_controls-blocks (suc fuel) id s once =
    next (controls_of s id) refl (destroy_controls-blocks fuel id)
  where
    next :
        (cs : List Control)
        → controls_of s id ≡ cs
        → ((r : Ui)
            → ((j : ℕ) → holders j r.windows ≤ 1)
            → (destroy_controls fuel id r).blocks ≡ r.blocks)
        → (destroy_next id s (destroy_controls fuel id) cs).blocks ≡ s.blocks
    next [] e rest = refl
    next (c ∷ cs) e rest =
        let dropped = change_window s id (with_controls cs) in
        let left : (j : ℕ)
            → holders j dropped.windows + (if c.control_id == j then 1 else 0)
              ≡ holders j s.windows =
          λ j. holders_dropped id j c cs s.windows e in
        let gone : holders c.control_id dropped.windows ≡ 0 =
          ground (arith, left c.control_id, once c.control_id) in
        subst (λ r. (destroy_controls fuel id r).blocks ≡ s.blocks)
          (sym (destroy_control-nothing dropped c.control_id gone))
          (rest dropped (λ j. omega (arith, left j, once j)))

-- When no number of a control stands twice, UiDestroyWindow of a window that is not destroyed succeeds
-- and gives back one block, the window, however many controls the window has: UiDestroyControl no
-- longer finds a control that was taken out of the list, and its block is lost.
pub destroy_window-blocks :
    (s : Ui) (id : ℕ) (w : Window)
    → s.initialized ≡ true
    → find_window s id ≡ some w
    → is_destroyed w.state ≡ false
    → ((j : ℕ) → holders j s.windows ≤ 1)
    → ((destroy_window s id).0 ≡ success) × ((destroy_window s id).1.blocks ≡ s.blocks - 1)
unfolding destroy_window
destroy_window-blocks s id w ready e alive once =
    otherwise Lost (not s.initialized) _ _ (ap not ready) (
      subst (λ o. Lost (destroy_window_found s id o)) (sym e)
        (otherwise Lost (is_destroyed w.state) _ _ alive
          (refl, omega (arith, destroy_controls-blocks (length w.controls) id s once))))
  where
    Lost : Status × Ui → Type 0
    Lost r = (r.0 ≡ success) × (r.1.blocks ≡ s.blocks - 1)
