-- ===== src/Wm/Tests.antt =====
-- The window manager at concrete inputs.
use cgdb.Base.{ℕ, List, [], ◌∷◌, ◌≡◌, refl, some, arith, false}
use cgdb.Wm.Resize.{Splitter, Child, horizontal, vertical, resize_window, limit}
use cgdb.Wm.Resize.Fits.{Resized}
use cgdb.Wm.Resize.Limit.{resize_window-Resized}
use cgdb.Wm.Tree.{Window, window, splitter, nil, cons, Manager, done, undefined, wm_split, wm_close}
use cgdb.Wm.Tree.Leaves.{leaves, full, free}
use cgdb.Wm.Tree.Focus.{wm_close-focused_window}
use cgdb.Wm.Tree.Main.{of_two, put_up, wm_close_then}

abbrev child : ℕ → ℕ → ℕ → Child
child i p d = record { id = i; position = p; dimension = d; minimum = 2 }

abbrev three : Splitter
three = record {
  orientation = vertical;
  real_height = 24;
  real_width = 32;
  children = child 7 0 10 ∷ child 8 11 10 ∷ child 9 22 10 ∷ [];
}

abbrev kids : List Child
kids = child 7 0 3 ∷ child 8 4 25 ∷ child 9 30 2 ∷ []

resized : resize_window three (child 8 11 10) vertical 25 ≡ some (record three { children = kids })
unfolding resize_window limit cgdb.Wm.Resize.other_minimums cgdb.Wm.Resize.find_child
    cgdb.Wm.Resize.enlarge cgdb.Wm.Resize.borrow_after cgdb.Wm.Resize.borrow
    cgdb.Wm.Resize.borrow_before cgdb.Wm.Resize.borrow_back
resized = refl

resize_window-Resized_example :
    (kids : List Child) × (resize_window three (child 8 11 10) vertical 25
      ≡ some (record three { children = kids }))
    × Resized 1 0 three.children 8 25 kids
resize_window-Resized_example =
    resize_window-Resized three (child 7 0 10 ∷ []) (child 8 11 10) (child 9 22 10 ∷ []) vertical 0
      25 refl refl refl (omega arith) refl
      ((refl, (refl, (refl, tt))), (omega arith, (omega arith, (omega arith, tt))), refl)

abbrev nested : Manager
nested = record {
  main_window =
      splitter 10 vertical (
        cons (window 1)
          (cons (splitter 11 horizontal (cons (window 2) (cons (window 3) nil))) nil));
  focused_window = 2;
  parent_freed = false;
}

wm_close-focused_window_example :
    (next : Manager) × (wm_close nested (window 2) ≡ done next)
    × (free next.focused_window next.main_window ≡ false)
unfolding leaves full cgdb.Wm.Tree.Leaves.once free
wm_close-focused_window_example = wm_close-focused_window nested 2 refl refl refl refl refl

-- What is left when the window beside it is closed.
abbrev nested_two : Window
nested_two = splitter 11 horizontal (cons (window 2) (cons (window 3) nil))

wm_close_then_example :
    (wm_close (of_two false 10 vertical 1 nested_two 1 false) (window 1) ≡ done (put_up nested_two))
    × (wm_split 12 (put_up nested_two) (window 4) horizontal ≡ undefined)
    × (wm_close (put_up nested_two) (window 3) ≡ undefined)
wm_close_then_example =
    wm_close_then false 10 vertical 1 nested_two 1 12 4 3 horizontal refl refl refl
