-- ===== src/Windows/Tests.antt =====
-- Runs of the models of kernel/src/composite_ui.c on small states, and the theorems at them.
use dsls_os.Base.{ℕ, ◌≤◌, ◌≡◌, refl, arith, true, false, some, [], ◌∷◌, success, length}
use dsls_os.Base.Entries.{occurrences}
use dsls_os.Base.Search.{find_first}
use dsls_os.Windows.{
  Rect, Window, hybrid, Ui, default_settings, initialize, new_window, create_window, find_window,
}
use dsls_os.Windows.Controls.{
  new_control, with_control, destroy_controls, controls_of, destroy_window,
}
use dsls_os.Windows.Steps.{Reachable, begins, goes_on, creates, destroys, Reachable-IsListed}
use dsls_os.Windows.Registry.{IsListed}
use dsls_os.Windows.Rounds.{destroy_controls-drained}
use dsls_os.Windows.Leak.{holders, destroy_window-blocks}

abbrev zero_state : Ui
zero_state = record {
  initialized = false;
  windows = [];
  window_list = [];
  window_count = 0;
  active_window_id = 0;
  focused_window_id = 0;
  next_window_id = 1;
  next_control_id = 1;
  current_mode = hybrid;
  settings = default_settings hybrid;
  blocks = 0;
}

abbrev square : Rect
square = record { left = 10; top = 10; right = 110; bottom = 110 }

abbrev opened : Ui
opened = (create_window (initialize zero_state true success).1 true square).2

abbrev closed_again : Ui
closed_again = (destroy_window opened 1).1

opened-Reachable : Reachable opened
opened-Reachable =
    goes_on (initialize zero_state true success).1 opened (begins zero_state true refl refl)
      (creates true square)

closed_again-Reachable : Reachable closed_again
closed_again-Reachable = goes_on opened closed_again opened-Reachable (destroys 1)

Reachable-IsListed_example : IsListed closed_again
Reachable-IsListed_example = Reachable-IsListed closed_again closed_again-Reachable

-- One window with two controls.
abbrev two_controls : Window
two_controls =
    with_control (new_control 2 1 square)
      (with_control (new_control 1 1 square) (new_window 1 square))

abbrev crowded : Ui
crowded = record zero_state {
  initialized = true;
  windows = two_controls ∷ [];
  window_list = 1 ∷ [];
  window_count = 1;
  active_window_id = 1;
  focused_window_id = 1;
  next_window_id = 2;
  next_control_id = 3;
  blocks = 3;
}

crowded_controls : length (controls_of crowded 1) ≤ 2
unfolding find_first
crowded_controls = omega arith

destroy_controls-drained_example : controls_of (destroy_controls 2 1 crowded) 1 ≡ []
destroy_controls-drained_example = destroy_controls-drained 2 1 crowded crowded_controls

crowded_found : find_window crowded 1 ≡ some two_controls
unfolding find_first
crowded_found = refl

held_once : (j : ℕ) → holders j (two_controls ∷ []) ≤ 1
unfolding holders occurrences
held_once j = ground arith

destroy_window-blocks_example :
    ((destroy_window crowded 1).0 ≡ success) × ((destroy_window crowded 1).1.blocks ≡ 2)
destroy_window-blocks_example =
    destroy_window-blocks crowded 1 two_controls refl crowded_found refl held_once
