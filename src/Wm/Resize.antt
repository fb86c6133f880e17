-- ===== src/Wm/Resize.antt =====
-- lib/wm/wm_splitter.c: `wm_splitter_resize_window`. A window is seen along the split: `position` is
-- its top or left, `dimension` its real_height or real_width, `minimum` what
-- `wm_splitter_min_dimension` gives for it, and `id` its address. Numbers stop at 0, where an int would
-- go on: that is reached only by a splitter that is smaller than the minimum of its windows.
pub mod Row
pub mod Limit
pub mod Fits
pub mod Back
pub mod Borrow
use cgdb.Base.{
  ℕ, zero, suc, ◌+◌, ◌-◌, Bool, true, false, not, List, [], ◌∷◌, ◌++◌, map, ltb, ◌==◌,
  if◌then◌else◌, length, Option, none, some,
}

pub data Orientation : Type 0 where
  horizontal vertical both : Orientation

abbrev pub same_orientation : Orientation → Orientation → Bool
same_orientation horizontal horizontal = true
same_orientation vertical vertical = true
same_orientation both both = true
same_orientation _ _ = false

pub record Child : Type 0 where
  pub id : ℕ
  pub position : ℕ
  pub dimension : ℕ
  pub minimum : ℕ

pub record Splitter : Type 0 where
  pub orientation : Orientation
  pub real_height : ℕ
  pub real_width : ℕ
  pub children : List Child

abbrev pub move_down : ℕ → Child → Child
move_down n c = record c { position = c.position + n }

abbrev pub move_up : ℕ → Child → Child
move_up n c = record c { position = c.position - n }

-- `this_change`, of what a window can spare.
abbrev pub spare : ℕ → Child → ℕ
spare need c = let avail = c.dimension - c.minimum in if ltb avail need then avail else need

-- What is still missing, and the windows.
pub record Borrowed : Type 0 where
  pub need : ℕ
  pub window : Child
  pub others : List Child

-- One round over a successor `c`: `passed` stand between the window and it, and are moved along. A
-- successor below its minimum has a negative `avail`: it is given what it lacks.
unfoldable pub borrow : ℕ → Child → List Child → Child → Borrowed
borrow need w passed c =
    let t = spare need c in
    let g = c.minimum - c.dimension in
    if need == 0
    then record { need = need; window = w; others = passed ++ c ∷ [] }
    else if ltb c.dimension c.minimum
    then record {
      need = need + g;
      window = record w { dimension = w.dimension - g };
      others =
          map (move_up g) passed
          ++ record c { position = c.position - g; dimension = c.dimension + g } ∷ [];
    }
    else record {
      need = need - t;
      window = record w { dimension = w.dimension + t };
      others =
          map (move_down t) passed
          ++ record c { position = c.position + t; dimension = c.dimension - t } ∷ [];
    }

-- The loop over the successors.
unfoldable pub borrow_after : ℕ → Child → List Child → List Child → Borrowed
unfolding borrow
borrow_after need w passed [] = record { need = need; window = w; others = passed }
borrow_after need w passed (c ∷ rest) =
    let b = borrow need w passed c in borrow_after b.need b.window b.others rest

-- The loop over the predecessors, from the nearest one, the last of the list, to the first.
unfoldable pub borrow_back : Child → Borrowed → Borrowed
borrow_back c b =
    let t = spare b.need c in
    let g = c.minimum - c.dimension in
    if b.need == 0
    then record b { others = c ∷ b.others }
    else if ltb c.dimension c.minimum
    then record {
      need = b.need + g;
      window = record b.window {
        position = b.window.position + g;
        dimension = b.window.dimension - g;
      };
      others = record c { dimension = c.dimension + g } ∷ map (move_down g) b.others;
    }
    else record {
      need = b.need - t;
      window = record b.window {
        position = b.window.position - t;
        dimension = b.window.dimension + t;
      };
      others = record c { dimension = c.dimension - t } ∷ map (move_up t) b.others;
    }

unfoldable pub borrow_before : ℕ → Child → List Child → Borrowed
unfolding borrow_back
borrow_before need w [] = record { need = need; window = w; others = [] }
borrow_before need w (c ∷ rest) = borrow_back c (borrow_before need w rest)

-- `desired_change > 0`.
unfoldable pub enlarge : ℕ → List Child → Child → List Child → List Child
unfolding borrow_after borrow_before
enlarge change before w after =
    let a = borrow_after change w [] after in
    let b = borrow_before a.need a.window before in b.others ++ b.window ∷ a.others

-- The case of `next = splitter->children[i-1]`: the last predecessor takes the space.
abbrev pub grow_last : ℕ → List Child → List Child
grow_last change [] = []
grow_last change (c ∷ []) = record c { dimension = c.dimension + change } ∷ []
grow_last change (c ∷ d ∷ cs) = c ∷ grow_last change (d ∷ cs)

-- `desired_change < 0`, by `change`.
unfoldable pub reduce : ℕ → List Child → Child → List Child → List Child
reduce change before w [] =
    grow_last change before
    ++ record w { position = w.position + change; dimension = w.dimension - change } ∷ []
reduce change before w (c ∷ after) =
    before
    ++ record w { dimension = w.dimension - change }
      ∷ record c { position = c.position - change; dimension = c.dimension + change }
      ∷ after

-- `wm_splitter_find_child`: what stands before the window, and what behind it.
unfoldable pub find_child : ℕ → List Child → Option (List Child × List Child)
find_child i [] = none
find_child i (c ∷ cs) =
    if c.id == i
    then some ([], cs)
    else elim (find_child i cs) [ none ↦ none | some p ↦ some (c ∷ p.0, p.1) ]

-- The minimum sizes of the children that are not the window.
unfoldable pub other_minimums : ℕ → List Child → ℕ
other_minimums i [] = 0
other_minimums i (c ∷ cs) =
    if c.id == i then other_minimums i cs else c.minimum + other_minimums i cs

-- The space for the children: there are separators between those of a vertical split.
abbrev pub room : Splitter → ℕ
room s = elim s.orientation [
  | horizontal ↦ s.real_height
  | _ ↦ s.real_width - (length s.children - 1)
]

-- `size` limited to what is possible.
unfoldable pub limit : Splitter → Child → ℕ → ℕ
unfolding other_minimums
limit s w size =
    let low = if ltb size w.minimum then w.minimum else size in
    let max = room s - other_minimums w.id s.children in if ltb max low then max else low

-- `wm_splitter_resize_window`: `none` for the result -1.
unfoldable pub resize_window : Splitter → Child → Orientation → ℕ → Option Splitter
unfolding find_child enlarge reduce limit
resize_window s w dir size =
    let n = limit s w size in
    if length s.children == 1
    then none
    else if not (same_orientation dir s.orientation)
    then none
    else if n == w.dimension
    then some s
    else elim (find_child w.id s.children) [
      | none ↦ none
      | some p ↦ some (record s {
        children =
            if ltb n w.dimension
            then reduce (w.dimension - n) p.0 w p.1
            else enlarge (n - w.dimension) p.0 w p.1;
      })
    ]
