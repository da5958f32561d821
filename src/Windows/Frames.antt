-- ===== src/Windows/Frames.antt =====
-- The windows of a list under the changes that kernel/src/composite_ui.c makes: numbers and frames.
use dsls_os.Base.{
  ℕ, ◌+◌, ◌%◌, ◌≡◌, refl, ap, arith, Bool, false, Option, none, some, List, [], ◌∷◌, ◌++◌, ◌==◌,
  ulong_mod, map, Bool-cases, inl, inr,
}
use dsls_os.Base.Entries.{remove_entry}
use dsls_os.Base.Search.{take_first, update_first, with_head}
use dsls_os.Windows.{Rect, Window, new_window, corner, has_id}
use dsls_os.Windows.Controls.{has_control_id, without_in, remove_control, without, resized, moved}
use dsls_os.Windows.{Point, Size, Control}

abbrev pub ids : List Window → List ℕ
ids ws = map (λ (w : Window). w.window_id) ws

pub ids-append : (ws : List Window) (w : Window) → ids (ws ++ w ∷ []) ≡ ids ws ++ w.window_id ∷ []
ids-append [] w = refl
ids-append (v ∷ ws) w = ap (λ (is : List ℕ). v.window_id ∷ is) (ids-append ws w)

-- The position is the corner of the bounds, and the size is their extent.
pub record IsFramed (w : Window) : Type 0 where
  pub at_corner : w.position ≡ corner w.bounds
  pub wide : w.bounds.right % ulong_mod ≡ (w.bounds.left + w.size.width) % ulong_mod
  pub high : w.bounds.bottom % ulong_mod ≡ (w.bounds.top + w.size.height) % ulong_mod

abbrev pub AllFramed : List Window → Type 0
AllFramed [] = Unit {0}
AllFramed (w ∷ ws) = IsFramed w × AllFramed ws

pub new_window-IsFramed : (id : ℕ) (rect : Rect) → IsFramed (new_window id rect)
new_window-IsFramed id rect = record { at_corner = refl; wide = omega arith; high = omega arith }

pub resized-IsFramed : (n : Size) (w : Window) → IsFramed w → IsFramed (resized n w)
resized-IsFramed n w f = record { at_corner = f.at_corner; wide = omega arith; high = omega arith }

pub moved-IsFramed : (p : Point) (w : Window) → IsFramed w → IsFramed (moved p w)
moved-IsFramed p w f = record { at_corner = refl; wide = omega arith; high = omega arith }

pub AllFramed-append :
    (ws : List Window) (w : Window) → AllFramed ws → IsFramed w → AllFramed (ws ++ w ∷ [])
AllFramed-append [] w a f = (f, tt)
AllFramed-append (v ∷ ws) w a f = (a.0, AllFramed-append ws w a.1 f)

-- What a list of windows keeps: the numbers, and the frames.
pub record IsKept (before after : List Window) : Type 0 where
  pub same_ids : ids after ≡ ids before
  pub frames : AllFramed before → AllFramed after

pub IsKept-refl : (ws : List Window) → IsKept ws ws
IsKept-refl ws = record { same_ids = refl; frames = λ a. a }

pub update_first-IsKept :
    (p : Window → Bool) (f : Window → Window) (ws : List Window)
    → ((w : Window) → (f w).window_id ≡ w.window_id)
    → ((w : Window) → IsFramed w → IsFramed (f w))
    → IsKept ws (update_first p f ws)
unfolding update_first
update_first-IsKept p f [] same framed = IsKept-refl []
update_first-IsKept p f (w ∷ ws) same framed =
    let rest = update_first-IsKept p f ws same framed in
    elim (Bool-cases (p w)) [
      | inl e ↦ rw e (record {
        same_ids = ap (λ (i : ℕ). i ∷ ids ws) (same w);
        frames = λ a. (framed w a.0, a.1);
      })
      | inr e ↦ rw e (record {
        same_ids = ap (λ (is : List ℕ). w.window_id ∷ is) rest.same_ids;
        frames = λ a. (a.0, rest.frames a.1);
      })
    ]

pub remove_control-IsKept : (id : ℕ) (ws : List Window) → IsKept ws (remove_control id ws)
unfolding remove_control
remove_control-IsKept id [] = IsKept-refl []
remove_control-IsKept id (w ∷ ws) =
    kept (take_first (has_control_id id) w.controls) (remove_control-IsKept id ws)
  where
    kept :
        (o : Option (Control × List Control))
        → IsKept ws (remove_control id ws)
        → IsKept (w ∷ ws) (without_in w ws (remove_control id ws) o)
    kept none rest = record {
      same_ids = ap (λ (is : List ℕ). w.window_id ∷ is) rest.same_ids;
      frames = λ a. (a.0, rest.frames a.1);
    }
    kept (some (c, cs)) rest = record {
      same_ids = refl;
      frames = λ a. (record { at_corner = a.0.at_corner; wide = a.0.wide; high = a.0.high }, a.1);
    }

-- What taking out the window `id` does.
pub record IsWithout (id : ℕ) (ws after : List Window) : Type 0 where
  pub removed_ids : ids after ≡ remove_entry id (ids ws)
  pub frames : AllFramed ws → AllFramed after

further :
    (id : ℕ) (w : Window) (ws : List Window) (o : Option (Window × List Window))
    → (w.window_id == id) ≡ false
    → IsWithout id ws (without ws o)
    → IsWithout id (w ∷ ws) (without (w ∷ ws) (with_head w o))
unfolding remove_entry
further id w ws none e rest = record {
  removed_ids = rw e (ap (λ (is : List ℕ). w.window_id ∷ is) rest.removed_ids);
  frames = λ a. (a.0, rest.frames a.1);
}
further id w ws (some (v, vs)) e rest = record {
  removed_ids = rw e (ap (λ (is : List ℕ). w.window_id ∷ is) rest.removed_ids);
  frames = λ a. (a.0, rest.frames a.1);
}

pub without-IsWithout :
    (id : ℕ) (ws : List Window) → IsWithout id ws (without ws (take_first (has_id id) ws))
unfolding take_first remove_entry
without-IsWithout id [] = record { removed_ids = refl; frames = λ a. a }
without-IsWithout id (w ∷ ws) = elim (Bool-cases (w.window_id == id)) [
  | inl e ↦ rw e (record { removed_ids = rw e refl; frames = λ a. a.1 })
  | inr e ↦ rw e (further id w ws (take_first (has_id id) ws) e (without-IsWithout id ws))
]
