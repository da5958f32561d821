-- ===== src/Windows/Steps.antt =====
-- The windows of kernel/src/composite_ui.c as a state machine.
use dsls_os.Base.{
  ℕ, ◌<◌, ◌≡◌, refl, sym, ap, subst, Bool, true, false, not, Option, none, some, ◌==◌,
  if◌then◌else◌, Status, success, length, inl, inr, either, otherwise,
}
use dsls_os.Base.Entries.{occurrences}
use dsls_os.Windows.{
  Rect, Point, Size, Window, Mode, Ui, initialize, new_window, create_window, find_window,
  change_window, shown, show_found, show_window, concealed, hide_found, hide_window, is_closed,
  is_visible, is_destroyed,
}
use dsls_os.Windows.Controls.{
  new_control, with_control, create_in, create_control, destroy_control, destroy_controls,
  destroy_window_found, destroy_window, set_ui_mode, resized, moved,
}
use dsls_os.Windows.Frames.{new_window-IsFramed, resized-IsFramed, moved-IsFramed}
use dsls_os.Windows.Registry.{
  IsListedId, IsListed, change_window-IsListed, found_in_list, add_window-IsListed,
  remove_window-IsListed,
}
use dsls_os.Windows.Drain.{destroy_control-IsQuiet, destroy_controls-IsQuiet}

-- One call, or the handling of a message about size or position by a window.
pub data Step (s : Ui) : Ui → Type 0 where
  creates : (pool : Bool) (rect : Rect) → Step s (create_window s pool rect).2
  shows : (id : ℕ) → Step s (show_window s id).1
  hides : (id : ℕ) → Step s (hide_window s id).1
  destroys : (id : ℕ) → Step s (destroy_window s id).1
  creates_control : (id : ℕ) (pool : Bool) (rect : Rect) → Step s (create_control s id pool rect).2
  destroys_control : (id : ℕ) → Step s (destroy_control s id).1
  sets_mode : (mode : Mode) → Step s (set_ui_mode s mode).1
  resizes : (id : ℕ) (new : Size) → Step s (change_window s id (resized new))
  moves : (id : ℕ) (p : Point) → Step s (change_window s id (moved p))

-- What UiInitializeCompositeInterface and any calls after it lead to.
pub data Reachable : Ui → Type 0 where
  begins :
      (s : Ui) (pool : Bool)
      → s.initialized ≡ false
      → pool ≡ true
      → Reachable (initialize s pool success).1
  goes_on : (s r : Ui) → Reachable s → Step s r → Reachable r

module _ (s : Ui) (q : IsListed s) where
  abbrev Kept : Status × Ui → Type 0
  Kept r = IsListed r.1

  abbrev Made : Status × Option ℕ × Ui → Type 0
  Made r = IsListed r.2

  create_window-IsListed : (pool : Bool) (rect : Rect) → Made (create_window s pool rect)
  unfolding create_window
  create_window-IsListed pool rect = either Made (not s.initialized) _ _ q (
      either Made (not pool) _ _ q (
        add_window-IsListed s q (new_window s.next_window_id rect)
          (new_window-IsFramed s.next_window_id rect)))

  show_found-IsListed :
      (id : ℕ) (o : Option Window) → find_window s id ≡ o → Kept (show_found s id o)
  show_found-IsListed id none e = q
  show_found-IsListed id (some w) e =
      let c =
        change_window-IsListed s q id shown (λ v. refl)
          (λ v f. record { at_corner = f.at_corner; wide = f.wide; high = f.high }) in
      let held : IsListedId id s.window_list = inr (found_in_list s q id w e) in
      either Kept (is_closed w.state) _ _ q (record {
        linked = c.linked;
        counted = c.counted;
        active = held;
        focused = held;
        framed = c.framed;
      })

  show_window-IsListed : (id : ℕ) → Kept (show_window s id)
  unfolding show_window
  show_window-IsListed id =
      either Kept (not s.initialized) _ _ q (show_found-IsListed id (find_window s id) refl)

  deactivated :
      (id j : ℕ)
      → IsListedId id s.window_list
      → IsListedId (if id == j then 0 else id) s.window_list
  deactivated id j h = either (λ i. IsListedId i s.window_list) (id == j) 0 id (inl refl) h

  hide_found-IsListed : (id : ℕ) (o : Option Window) → Kept (hide_found s id o)
  hide_found-IsListed id none = q
  hide_found-IsListed id (some w) =
      let c =
        change_window-IsListed s q id concealed (λ v. refl)
          (λ v f. record { at_corner = f.at_corner; wide = f.wide; high = f.high }) in
      either Kept (not (is_visible w.state)) _ _ q (record {
        linked = c.linked;
        counted = c.counted;
        active = deactivated s.active_window_id id c.active;
        focused = deactivated s.focused_window_id id c.focused;
        framed = c.framed;
      })

  hide_window-IsListed : (id : ℕ) → Kept (hide_window s id)
  unfolding hide_window
  hide_window-IsListed id =
      either Kept (not s.initialized) _ _ q (hide_found-IsListed id (find_window s id))

  create_in-IsListed :
      (id : ℕ) (pool : Bool) (rect : Rect) (o : Option Window) → Made (create_in s id pool rect o)
  create_in-IsListed id pool rect none = q
  create_in-IsListed id pool rect (some w) =
      let c =
        change_window-IsListed s q id (with_control (new_control s.next_control_id id rect))
          (λ v. refl) (λ v f. record { at_corner = f.at_corner; wide = f.wide; high = f.high }) in
      either Made (not pool) _ _ q (record {
        linked = c.linked;
        counted = c.counted;
        active = c.active;
        focused = c.focused;
        framed = c.framed;
      })

  create_control-IsListed :
      (id : ℕ) (pool : Bool) (rect : Rect) → Made (create_control s id pool rect)
  unfolding create_control
  create_control-IsListed id pool rect =
      either Made (not s.initialized) _ _ q (create_in-IsListed id pool rect (find_window s id))

  destroy_window_found-IsListed :
      (id : ℕ) (o : Option Window) → find_window s id ≡ o → Kept (destroy_window_found s id o)
  destroy_window_found-IsListed id none e = q
  destroy_window_found-IsListed id (some w) e =
      let quiet = destroy_controls-IsQuiet (length w.controls) id s in
      either Kept (is_destroyed w.state) _ _ q (
        remove_window-IsListed (destroy_controls (length w.controls) id s) (quiet.listed q) id
          (subst (λ is. 0 < occurrences id is) (sym quiet.same_list) (found_in_list s q id w e)))

  destroy_window-IsListed : (id : ℕ) → Kept (destroy_window s id)
  unfolding destroy_window
  destroy_window-IsListed id =
      either Kept (not s.initialized) _ _ q
        (destroy_window_found-IsListed id (find_window s id) refl)

  set_ui_mode-IsListed : (mode : Mode) → Kept (set_ui_mode s mode)
  unfolding set_ui_mode
  set_ui_mode-IsListed mode = either Kept (not s.initialized) _ _ q (record {
    linked = q.linked;
    counted = q.counted;
    active = q.active;
    focused = q.focused;
    framed = q.framed;
  })

initialize-IsListed :
    (s : Ui) (pool : Bool)
    → s.initialized ≡ false
    → pool ≡ true
    → IsListed (initialize s pool success).1
unfolding initialize
initialize-IsListed s pool fresh room =
    otherwise (λ (r : Status × Ui). IsListed r.1) s.initialized _ _ fresh
      (otherwise (λ (r : Status × Ui). IsListed r.1) (not pool) _ _ (ap not room)
        (record {
          linked = refl;
          counted = refl;
          active = inl refl;
          focused = inl refl;
          framed = tt;
        }))

Step-IsListed : (s r : Ui) → IsListed s → Step s r → IsListed r
Step-IsListed s _ q (creates pool rect) = create_window-IsListed s q pool rect
Step-IsListed s _ q (shows id) = show_window-IsListed s q id
Step-IsListed s _ q (hides id) = hide_window-IsListed s q id
Step-IsListed s _ q (destroys id) = destroy_window-IsListed s q id
Step-IsListed s _ q (creates_control id pool rect) = create_control-IsListed s q id pool rect
Step-IsListed s _ q (destroys_control id) = (destroy_control-IsQuiet s id).listed q
Step-IsListed s _ q (sets_mode mode) = set_ui_mode-IsListed s q mode
Step-IsListed s _ q (resizes id new) =
    change_window-IsListed s q id (resized new) (λ w. refl) (resized-IsFramed new)
Step-IsListed s _ q (moves id p) =
    change_window-IsListed s q id (moved p) (λ w. refl) (moved-IsFramed p)

-- In every state that UiInitializeCompositeInterface of a fresh state and any calls of the operations,
-- with any handling of resizes and moves, lead to: both lists link the same windows in the same
-- order, and WindowCount is their number as a ULONG; the active and the focused window are in the
-- lists, if there are such; and the position and the size of every window agree with its bounds.
pub Reachable-IsListed : (s : Ui) → Reachable s → IsListed s
Reachable-IsListed _ (begins s pool fresh room) = initialize-IsListed s pool fresh room
Reachable-IsListed r (goes_on s _ before step) =
    Step-IsListed s r (Reachable-IsListed s before) step
