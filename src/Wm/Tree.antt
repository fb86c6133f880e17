-- ===== src/Wm/Tree.antt =====
-- lib/wm/wm.c and lib/wm/wm_splitter.c: the tree of windows, and splitting and closing windows. A
-- window's number is its address. The parent pointer of a window below the main one is the splitter
-- that has it among its children: wm_window_set_context is called with that splitter wherever a window
-- gets a place there. The parent pointer of the main window is NULL, or that of a freed splitter, since
-- wm_new_main passes NULL, which wm_window_set_context ignores.
pub mod Leaves
pub mod Split
pub mod Below
pub mod Close
pub mod Focus
pub mod Main
use cgdb.Base.{
  ℕ, zero, suc, ◌+◌, Bool, true, false, ◌&&◌, ◌||◌, not, ◌==◌, if◌then◌else◌, Option, none, some,
}
use mathlib.Core.Option.{get_or}
use cgdb.Wm.Resize.{Orientation, same_orientation}

mutual
  pub data Window : Type 0 where
    window : ℕ → Window
    splitter : ℕ → Orientation → Windows → Window

  pub data Windows : Type 0 where
    nil : Windows
    cons : Window → Windows → Windows

abbrev pub address : Window → ℕ
address (window i) = i
address (splitter i o ws) = i

abbrev pub is_splitter : Window → Bool
is_splitter (window i) = false
is_splitter (splitter i o ws) = true

-- `wm_splitter_find_child`: the index, `none` for -1.
unfoldable pub child_index : ℕ → Windows → Option ℕ
child_index w nil = none
child_index w (cons c ws) =
    if address c == w
    then some 0
    else elim (child_index w ws) [ none ↦ none | some i ↦ some (suc i) ]

-- `wm_splitter_array_remove` at an index.
unfoldable pub array_remove : ℕ → Windows → Windows
array_remove i nil = nil
array_remove zero (cons c ws) = ws
array_remove (suc i) (cons c ws) = cons c (array_remove i ws)

abbrev pub child_at : ℕ → Window → Windows → Window
child_at i d nil = d
child_at zero d (cons c ws) = c
child_at (suc i) d (cons c ws) = child_at i d ws

-- `children[pos] = obj`, with the children from `pos` on moved by one.
unfoldable pub array_insert : ℕ → Window → Windows → Windows
array_insert pos obj nil = cons obj nil
array_insert zero obj (cons c ws) = cons obj (cons c ws)
array_insert (suc pos) obj (cons c ws) = cons c (array_insert pos obj ws)

-- `wm_splitter_split` of a child of the splitter with orientation `po` and children `ws`: its children
-- afterwards. `fresh` is the address of a splitter that is created.
unfoldable pub splitter_split :
    ℕ → Orientation → Windows → ℕ → Window → Orientation → Option Windows
unfolding child_index array_remove array_insert
splitter_split fresh po ws w new o = elim (child_index w ws) [
  | none ↦ none
  | some i ↦ some (
      if same_orientation o po
      then array_insert (suc i) new ws
      else array_insert i (splitter fresh o (cons (child_at i new ws) (cons new nil)))
          (array_remove i ws))
]

-- The splitter with the children that it got, if any.
abbrev pub with_children : ℕ → Orientation → Windows → Option Windows → Window
with_children i po others none = splitter i po others
with_children i po others (some kids) = splitter i po kids

-- The parent of `w` is looked for below a window, and is split there.
unfoldable mutual
  pub split_below : ℕ → ℕ → Window → Orientation → Window → Window
  split_below fresh w new o (window i) = window i
  split_below fresh w new o (splitter i po ws) =
      let others = split_below_all fresh w new o ws in
      with_children i po others (splitter_split fresh po ws w new o)

  pub split_below_all : ℕ → ℕ → Window → Orientation → Windows → Windows
  split_below_all fresh w new o nil = nil
  split_below_all fresh w new o (cons c ws) =
      cons (split_below fresh w new o c) (split_below_all fresh w new o ws)

-- `parent_freed` is whether the main window's parent pointer leads to a freed splitter. Otherwise it is
-- NULL.
pub record Manager : Type 0 where
  pub main_window : Window
  pub focused_window : ℕ
  pub parent_freed : Bool

-- The results: -1, what follows from reading a freed splitter, and 0.
pub data Outcome : Type 0 where
  refused undefined : Outcome
  done : Manager → Outcome

-- `wm_split`. A new main splitter gets both windows by two calls of `wm_splitter_split`.
unfoldable pub wm_split : ℕ → Manager → Window → Orientation → Outcome
unfolding split_below
wm_split fresh m new o =
    let orig = m.focused_window in
    if address m.main_window == orig
    then (if m.parent_freed
        then undefined
        else done (record {
          main_window = splitter fresh o (cons m.main_window (cons new nil));
          focused_window = address new;
          parent_freed = false;
        }))
    else done (record {
      main_window = split_below fresh orig new o m.main_window;
      focused_window = address new;
      parent_freed = m.parent_freed;
    })

abbrev pub alone : Windows → Bool
alone (cons c nil) = true
alone _ = false

-- The child takes the place of a splitter that is left with one.
abbrev pub collapse : ℕ → Orientation → Windows → Window
collapse i o (cons c nil) = c
collapse i o ws = splitter i o ws

-- `wm_splitter_remove`: what then stands in the splitter's place.
unfoldable pub splitter_remove : ℕ → Orientation → Windows → ℕ → Option Window
unfolding child_index array_remove
splitter_remove i o ws w = elim (child_index w ws) [
  | none ↦ none
  | some k ↦ some (collapse i o (array_remove k ws))
]

unfoldable mutual
  pub close_below : ℕ → Window → Window
  close_below w (window i) = window i
  close_below w (splitter i o ws) =
      let others = close_below_all w ws in get_or (splitter_remove i o ws w) (splitter i o others)

  pub close_below_all : ℕ → Windows → Windows
  close_below_all w nil = nil
  close_below_all w (cons c ws) = cons (close_below w c) (close_below_all w ws)

abbrev pub or_else : Option Windows → Option Windows → Option Windows
or_else none b = b
or_else (some a) b = some a

-- The children without `w`, when it is one.
unfoldable pub kids_without : ℕ → Windows → Option Windows
unfolding child_index array_remove
kids_without w ws = elim (child_index w ws) [ none ↦ none | some k ↦ some (array_remove k ws) ]

-- The children that the parent of `w` is left with.
unfoldable mutual
  pub left_with : ℕ → Window → Option Windows
  left_with w (window i) = none
  left_with w (splitter i o ws) = or_else (kids_without w ws) (left_with_all w ws)

  pub left_with_all : ℕ → Windows → Option Windows
  left_with_all w nil = none
  left_with_all w (cons c ws) = or_else (left_with w c) (left_with_all w ws)

abbrev pub first_child : Window → Windows → Window
first_child d nil = d
first_child d (cons c ws) = c

-- Is `w` a child of the main window?
abbrev pub of_main : ℕ → Window → Bool
unfolding child_index
of_main w (window i) = false
of_main w (splitter i o ws) = elim (child_index w ws) [ none ↦ false | some k ↦ true ]

-- The test of `wm_splitter_remove` for a main splitter that is left with one child.
unfoldable pub promotes : Manager → ℕ → Bool
unfolding left_with
promotes m w = elim (left_with w m.main_window) [
  | none ↦ false
  | some kids ↦ of_main w m.main_window && alone kids
]

-- The focus after `wm_splitter_remove`: `wm_new_main` sets it whatever it was.
unfoldable pub focus_after : Manager → ℕ → ℕ
unfolding left_with
focus_after m w = elim (left_with w m.main_window) [
  | none ↦ m.focused_window
  | some kids ↦
      if m.focused_window == w || (of_main w m.main_window && alone kids)
      then address (first_child m.main_window kids)
      else m.focused_window
]

-- `wm_new_main` leaves the child's parent pointer at the splitter that it frees.
unfoldable pub closed : Manager → ℕ → Manager
unfolding close_below focus_after promotes
closed m w = record {
  main_window = close_below w m.main_window;
  focused_window = focus_after m w;
  parent_freed = m.parent_freed || promotes m w;
}

-- `wm_close` of a window.
unfoldable pub wm_close : Manager → Window → Outcome
unfolding closed
wm_close m w =
    if is_splitter w
    then refused
    else if address m.main_window == address w
    then (if m.parent_freed then undefined else refused)
    else if promotes m (address w) && m.parent_freed
    then undefined
    else done (closed m (address w))
