-- ===== src/Windows/Controls.antt =====
-- The controls of kernel/src/composite_ui.c, UiDestroyWindow, which destroys them, UiSetUiMode, and the
-- moves and changes of size of windows.
use dsls_os.Base.{
  ℕ, zero, suc, ◌+◌, ◌-◌, Bool, true, false, not, Option, none, some, List, [], ◌∷◌, ◌++◌, ◌==◌,
  if◌then◌else◌, Status, success, unsuccessful, invalid_parameter, insufficient_resources,
  invalid_device_state, not_found, inc32, dec32, length,
}
use dsls_os.Base.Entries.{remove_entry}
use dsls_os.Base.Search.{find_first, take_first, update_first}
use dsls_os.Windows.{
  is_destroyed, Rect, Point, Size, Control, Window, Mode, cli, gui, hybrid, headless, remote,
  Settings, Ui, add32, corner, extent, has_id, find_window, change_window, deactivate,
}

abbrev pub new_control : ℕ → ℕ → Rect → Control
new_control id parent rect = record {
  control_id = id;
  bounds = rect;
  position = corner rect;
  size = extent rect;
  parent_window_id = parent;
}

abbrev pub with_control : Control → Window → Window
with_control c w = record w {
  controls = w.controls ++ c ∷ [];
  control_count = inc32 w.control_count;
}

abbrev pub create_in : Ui → ℕ → Bool → Rect → Option Window → Status × Option ℕ × Ui
create_in s id pool rect none = (not_found, none, s)
create_in s id pool rect (some w) = if not pool then (insufficient_resources, none, s) else (
  success,
  some s.next_control_id,
  record (change_window s id (with_control (new_control s.next_control_id id rect))) {
    next_control_id = inc32 s.next_control_id;
    blocks = s.blocks + 1;
  },
)

-- UiCreateControl in the window `id`: the option is what goes through `ControlId`.
unfoldable pub create_control : Ui → ℕ → Bool → Rect → Status × Option ℕ × Ui
create_control s id pool rect =
    if not s.initialized
    then (invalid_parameter, none, s)
    else create_in s id pool rect (find_window s id)

abbrev pub has_control_id : ℕ → Control → Bool
has_control_id id c = c.control_id == id

abbrev pub or_in : Option Control → Option Control → Option Control
or_in none later = later
or_in (some c) later = some c

-- The search of UiFindControlById through all windows.
unfoldable pub find_control : ℕ → List Window → Option Control
find_control id [] = none
find_control id (w ∷ ws) = or_in (find_first (has_control_id id) w.controls) (find_control id ws)

abbrev pub with_controls : List Control → Window → Window
with_controls cs w = record w { controls = cs }

abbrev pub without_in :
    Window → List Window → List Window → Option (Control × List Control) → List Window
without_in w ws later none = w ∷ later
without_in w ws later (some (c, rest)) = with_controls rest w ∷ ws

-- RemoveEntryList of the control that the search finds.
unfoldable pub remove_control : ℕ → List Window → List Window
remove_control id [] = []
remove_control id (w ∷ ws) =
    without_in w ws (remove_control id ws) (take_first (has_control_id id) w.controls)

abbrev pub count_lowered : Window → Window
count_lowered w = record w { control_count = dec32 w.control_count }

abbrev pub destroy_in : Ui → Control → Option Window → Status × Ui
destroy_in s c none = (not_found, s)
destroy_in s c (some parent) = (
  success,
  record s {
    windows =
        update_first (has_id c.parent_window_id) count_lowered
          (remove_control c.control_id s.windows);
    blocks = s.blocks - 1;
  },
)

abbrev pub destroy_found : Ui → Option Control → Status × Ui
destroy_found s none = (not_found, s)
destroy_found s (some c) = destroy_in s c (find_window s c.parent_window_id)

-- UiDestroyControl
unfoldable pub destroy_control : Ui → ℕ → Status × Ui
destroy_control s id =
    if not s.initialized then (unsuccessful, s) else destroy_found s (find_control id s.windows)

abbrev pub controls_in : Option Window → List Control
controls_in none = []
controls_in (some w) = w.controls

abbrev pub controls_of : Ui → ℕ → List Control
controls_of s id = controls_in (find_first (has_id id) s.windows)

-- One round of the loop of UiDestroyWindow: the first control is taken out of the list, and then
-- UiDestroyControl is called for its number.
abbrev pub destroy_next : ℕ → Ui → (Ui → Ui) → List Control → Ui
destroy_next id s rest [] = s
destroy_next id s rest (c ∷ cs) =
    rest (destroy_control (change_window s id (with_controls cs)) c.control_id).1

-- The loop of UiDestroyWindow over the controls of the window `id`, on fuel.
unfoldable pub destroy_controls : ℕ → ℕ → Ui → Ui
destroy_controls zero id s = s
destroy_controls (suc fuel) id s = destroy_next id s (destroy_controls fuel id) (controls_of s id)

abbrev pub without : List Window → Option (Window × List Window) → List Window
without ws none = ws
without ws (some (w, rest)) = rest

-- The window `id` leaves both lists, and is freed.
abbrev pub remove_window : Ui → ℕ → Ui
remove_window s id =
    deactivate
      (record s {
        windows = without s.windows (take_first (has_id id) s.windows);
        window_list = remove_entry id s.window_list;
        window_count = dec32 s.window_count;
        blocks = s.blocks - 1;
      })
      id

abbrev pub destroy_window_found : Ui → ℕ → Option Window → Status × Ui
destroy_window_found s id none = (not_found, s)
destroy_window_found s id (some w) =
    if is_destroyed w.state
    then (invalid_device_state, s)
    else (success, remove_window (destroy_controls (length w.controls) id s) id)

-- UiDestroyWindow. The state that it gives to the window is not read before the window is freed.
unfoldable pub destroy_window : Ui → ℕ → Status × Ui
destroy_window s id =
    if not s.initialized then (unsuccessful, s) else destroy_window_found s id (find_window s id)

abbrev pub settings_for : Mode → Settings
settings_for cli = record {
  ui_mode = cli;
  enable_animations = false;
  enable_transparency = false;
  enable_hardware_acceleration = false;
}
settings_for gui = record {
  ui_mode = gui;
  enable_animations = true;
  enable_transparency = true;
  enable_hardware_acceleration = true;
}
settings_for hybrid = record {
  ui_mode = hybrid;
  enable_animations = true;
  enable_transparency = true;
  enable_hardware_acceleration = true;
}
settings_for headless = record {
  ui_mode = headless;
  enable_animations = false;
  enable_transparency = false;
  enable_hardware_acceleration = false;
}
settings_for remote = record {
  ui_mode = remote;
  enable_animations = false;
  enable_transparency = false;
  enable_hardware_acceleration = true;
}

-- UiSetUiMode
unfoldable pub set_ui_mode : Ui → Mode → Status × Ui
set_ui_mode s mode =
    if not s.initialized
    then (unsuccessful, s)
    else (success, record s { current_mode = mode; settings = settings_for mode })

-- KiHandleWindowResize, which calls KiUpdateWindowLayout
abbrev pub resized : Size → Window → Window
resized new w = record w {
  size = new;
  bounds = record w.bounds {
    right = add32 w.bounds.left new.width;
    bottom = add32 w.bounds.top new.height;
  };
  needs_redraw = true;
}

-- KiHandleWindowMove
abbrev pub moved : Point → Window → Window
moved p w = record w {
  position = p;
  bounds = record {
    left = p.x;
    top = p.y;
    right = add32 p.x w.size.width;
    bottom = add32 p.y w.size.height;
  };
  needs_redraw = true;
}
