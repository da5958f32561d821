-- ===== src/Windows/Drain.antt =====
-- What UiDestroyControl of kernel/src/composite_ui.c, and the loop of UiDestroyWindow over the controls,
-- keep.
use dsls_os.Base.{
  ℕ, zero, suc, ◌≡◌, refl, ◌∙◌, not, Option, none, some, List, [], ◌∷◌, Status, either,
}
use dsls_os.Base.Search.{update_first}
use dsls_os.Windows.{Control, Window, Ui, has_id, find_window, change_window}
use dsls_os.Windows.Controls.{
  with_controls, remove_control, count_lowered, destroy_in, destroy_found, destroy_control,
  controls_of, destroy_next, destroy_controls, find_control,
}
use dsls_os.Windows.Frames.{IsKept, update_first-IsKept, remove_control-IsKept}
use dsls_os.Windows.Registry.{IsListed, kept-IsListed, change_window-IsListed}

-- `r` has the windows of `s`, in the same order.
pub record IsQuiet (s r : Ui) : Type 0 where
  pub same_list : r.window_list ≡ s.window_list
  pub listed : IsListed s → IsListed r

IsQuiet-refl : (s : Ui) → IsQuiet s s
IsQuiet-refl s = record { same_list = refl; listed = λ q. q }

IsQuiet-trans : (s r t : Ui) → IsQuiet s r → IsQuiet r t → IsQuiet s t
IsQuiet-trans s r t a b = record {
  same_list = b.same_list ∙ a.same_list;
  listed = λ q. b.listed (a.listed q);
}

-- One control less is counted, and the frame stays.
lowered-IsKept :
    (id parent : ℕ) (ws : List Window)
    → IsKept ws (update_first (has_id parent) count_lowered (remove_control id ws))
lowered-IsKept id parent ws =
    let removed = remove_control-IsKept id ws in
    let counted =
      update_first-IsKept (has_id parent) count_lowered (remove_control id ws) (λ v. refl)
        (λ v f. record { at_corner = f.at_corner; wide = f.wide; high = f.high }) in
    record {
      same_ids = counted.same_ids ∙ removed.same_ids;
      frames = λ a. counted.frames (removed.frames a);
    }

destroy_in-IsQuiet : (s : Ui) (c : Control) (o : Option Window) → IsQuiet s (destroy_in s c o).1
destroy_in-IsQuiet s c none = IsQuiet-refl s
destroy_in-IsQuiet s c (some parent) = record {
  same_list = refl;
  listed = λ q.
      let k = kept-IsListed s q _ (lowered-IsKept c.control_id c.parent_window_id s.windows) in
      record {
        linked = k.linked;
        counted = k.counted;
        active = k.active;
        focused = k.focused;
        framed = k.framed;
      };
}

destroy_found-IsQuiet : (s : Ui) (o : Option Control) → IsQuiet s (destroy_found s o).1
destroy_found-IsQuiet s none = IsQuiet-refl s
destroy_found-IsQuiet s (some c) = destroy_in-IsQuiet s c (find_window s c.parent_window_id)

pub destroy_control-IsQuiet : (s : Ui) (id : ℕ) → IsQuiet s (destroy_control s id).1
unfolding destroy_control
destroy_control-IsQuiet s id =
    either (λ (r : Status × Ui). IsQuiet s r.1) (not s.initialized) _ _ (IsQuiet-refl s)
      (destroy_found-IsQuiet s (find_control id s.windows))

dropped-IsQuiet :
    (s : Ui) (id : ℕ) (cs : List Control) → IsQuiet s (change_window s id (with_controls cs))
dropped-IsQuiet s id cs = record {
  same_list = refl;
  listed = λ q.
      change_window-IsListed s q id (with_controls cs) (λ v. refl)
        (λ v f. record { at_corner = f.at_corner; wide = f.wide; high = f.high });
}

pub destroy_controls-IsQuiet : (fuel id : ℕ) (s : Ui) → IsQuiet s (destroy_controls fuel id s)
unfolding destroy_controls
destroy_controls-IsQuiet zero id s = IsQuiet-refl s
destroy_controls-IsQuiet (suc fuel) id s =
    next (controls_of s id) (destroy_controls-IsQuiet fuel id)
  where
    next :
        (cs : List Control)
        → ((r : Ui) → IsQuiet r (destroy_controls fuel id r))
        → IsQuiet s (destroy_next id s (destroy_controls fuel id) cs)
    next [] rest = IsQuiet-refl s
    next (c ∷ cs) rest = IsQuiet-trans s _ _ (dropped-IsQuiet s id cs) (
        IsQuiet-trans _ _ _
          (destroy_control-IsQuiet (change_window s id (with_controls cs)) c.control_id)
          (rest (destroy_control (change_window s id (with_controls cs)) c.control_id).1))
