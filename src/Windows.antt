-- ===== src/Windows.antt =====
-- kernel/src/composite_ui.c: windows and their controls. Titles, styles, colours, displays, input
-- devices and themes are left out, and no pointer argument is NULL. Nothing puts an entry into the lists
-- of child windows and child controls, or custom data into a window. A LONG is written as a ULONG: it is
-- the number modulo 2 ^ 32. `blocks` counts the blocks of the pool that hold windows and controls.
pub mod Frames
pub mod Controls
pub mod Drain
pub mod Rounds
pub mod Leak
pub mod Registry
pub mod Steps
mod Tests
use dsls_os.Base.{
  ℕ, zero, suc, ◌+◌, ◌-◌, ◌%◌, Bool, true, false, not, ◌||◌, Option, none, some, List, [], ◌∷◌,
  ◌++◌, ◌==◌, if◌then◌else◌, Status, success, unsuccessful, invalid_parameter,
  insufficient_resources, invalid_device_state, not_found, ulong_mod, inc32, dec32,
}
use dsls_os.Base.Entries.{remove_entry}
use dsls_os.Base.Search.{find_first, take_first, update_first}

-- WINDOW_STATE
pub data WindowState : Type 0 where
  created visible hidden minimized maximized fullscreen closing closed destroyed : WindowState

abbrev pub is_closed : WindowState → Bool
is_closed closed = true
is_closed destroyed = true
is_closed _ = false

abbrev pub is_destroyed : WindowState → Bool
is_destroyed destroyed = true
is_destroyed _ = false

abbrev pub is_visible : WindowState → Bool
is_visible visible = true
is_visible _ = false

-- UI_RECT, UI_POINT and UI_SIZE
pub record Rect : Type 0 where
  pub left : ℕ
  pub top : ℕ
  pub right : ℕ
  pub bottom : ℕ

pub record Point : Type 0 where
  pub x : ℕ
  pub y : ℕ

pub record Size : Type 0 where
  pub width : ℕ
  pub height : ℕ

-- UI_CONTROL
pub record Control : Type 0 where
  pub control_id : ℕ
  pub bounds : Rect
  pub position : Point
  pub size : Size
  pub parent_window_id : ℕ

-- UI_WINDOW
pub record Window : Type 0 where
  pub window_id : ℕ
  pub state : WindowState
  pub bounds : Rect
  pub position : Point
  pub size : Size
  pub needs_redraw : Bool
  pub controls : List Control
  pub control_count : ℕ

-- UI_MODE
pub data Mode : Type 0 where
  cli gui hybrid headless remote : Mode

-- UI_SETTINGS
pub record Settings : Type 0 where
  pub ui_mode : Mode
  pub enable_animations : Bool
  pub enable_transparency : Bool
  pub enable_hardware_acceleration : Bool

-- The state of UI_MANAGER and the globals beside it. `windows` is g_WindowList; WindowList of the
-- manager links the same windows through another field, and is the list of their numbers.
pub record Ui : Type 0 where
  pub initialized : Bool
  pub windows : List Window
  pub window_list : List ℕ
  pub window_count : ℕ
  pub active_window_id : ℕ
  pub focused_window_id : ℕ
  pub next_window_id : ℕ
  pub next_control_id : ℕ
  pub current_mode : Mode
  pub settings : Settings
  pub blocks : ℕ

abbrev pub default_settings : Mode → Settings
default_settings mode = record {
  ui_mode = mode;
  enable_animations = true;
  enable_transparency = true;
  enable_hardware_acceleration = true;
}

-- UiInitializeCompositeInterface with KiInitializeUiManager and KiInitializeWindowManagement; `pool` says
-- whether the pool has room for the manager, and `rest` is the answer of the other parts.
unfoldable pub initialize : Ui → Bool → Status → Status × Ui
initialize s pool rest =
    let begun = record s {
      windows = [];
      window_list = [];
      window_count = 0;
      active_window_id = 0;
      focused_window_id = 0;
      settings = default_settings s.current_mode;
    } in
    if s.initialized
    then (success, s)
    else if not pool
    then (insufficient_resources, s)
    else finish rest begun
  where
    finish : Status → Ui → Status × Ui
    finish success begun = (success, record begun { initialized = true })
    finish status begun = (status, begun)

abbrev pub sub32 : ℕ → ℕ → ℕ
sub32 a b = (a + (ulong_mod - b % ulong_mod)) % ulong_mod

abbrev pub add32 : ℕ → ℕ → ℕ
add32 a b = (a + b) % ulong_mod

abbrev pub corner : Rect → Point
corner r = record { x = r.left; y = r.top }

abbrev pub extent : Rect → Size
extent r = record { width = sub32 r.right r.left; height = sub32 r.bottom r.top }

abbrev pub new_window : ℕ → Rect → Window
new_window id rect = record {
  window_id = id;
  state = created;
  bounds = rect;
  position = corner rect;
  size = extent rect;
  needs_redraw = true;
  controls = [];
  control_count = 0;
}

-- The first window becomes the active one.
abbrev pub activate_first : Ui → ℕ → Ui
activate_first s id =
    if s.window_count == 1 then record s { active_window_id = id; focused_window_id = id } else s

abbrev pub add_window : Ui → Window → Ui
add_window s w =
    activate_first
      (record s {
        windows = s.windows ++ w ∷ [];
        window_list = s.window_list ++ w.window_id ∷ [];
        window_count = inc32 s.window_count;
        next_window_id = inc32 s.next_window_id;
        blocks = s.blocks + 1;
      })
      w.window_id

-- UiCreateWindow: the option is what goes through `WindowId`.
unfoldable pub create_window : Ui → Bool → Rect → Status × Option ℕ × Ui
create_window s pool rect =
    if not s.initialized
    then (invalid_parameter, none, s)
    else if not pool
    then (insufficient_resources, none, s)
    else (success, some s.next_window_id, add_window s (new_window s.next_window_id rect))

abbrev pub has_id : ℕ → Window → Bool
has_id id w = w.window_id == id

-- UiFindWindowById
abbrev pub find_window : Ui → ℕ → Option Window
find_window s id = if s.initialized then find_first (has_id id) s.windows else none

-- A change of the window that UiFindWindowById finds.
abbrev pub change_window : Ui → ℕ → (Window → Window) → Ui
change_window s id f = record s { windows = update_first (has_id id) f s.windows }

abbrev pub shown : Window → Window
shown w = record w { state = visible; needs_redraw = true }

abbrev pub show_found : Ui → ℕ → Option Window → Status × Ui
show_found s id none = (not_found, s)
show_found s id (some w) = if is_closed w.state then (invalid_device_state, s) else (
  success,
  record (change_window s id shown) { active_window_id = id; focused_window_id = id },
)

-- UiShowWindow
unfoldable pub show_window : Ui → ℕ → Status × Ui
show_window s id =
    if not s.initialized then (unsuccessful, s) else show_found s id (find_window s id)

abbrev pub concealed : Window → Window
concealed w = record w { state = hidden }

-- The window `id` is no longer active or focused.
abbrev pub deactivate : Ui → ℕ → Ui
deactivate s id = record s {
  active_window_id = if s.active_window_id == id then 0 else s.active_window_id;
  focused_window_id = if s.focused_window_id == id then 0 else s.focused_window_id;
}

abbrev pub hide_found : Ui → ℕ → Option Window → Status × Ui
hide_found s id none = (not_found, s)
hide_found s id (some w) =
    if not (is_visible w.state)
    then (invalid_device_state, s)
    else (success, deactivate (change_window s id concealed) id)

-- UiHideWindow
unfoldable pub hide_window : Ui → ℕ → Status × Ui
hide_window s id =
    if not s.initialized then (unsuccessful, s) else hide_found s id (find_window s id)
