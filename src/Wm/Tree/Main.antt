-- ===== src/Wm/Tree/Main.antt =====
-- lib/wm/wm.c: the window that `wm_new_main` puts up, and what then reads the freed splitter.
use cgdb.Base.{
  ℕ, Bool, true, false, ◌||◌, ◌==◌, ◌≡◌, refl, ◌∙◌, ap, Bool-cases, inl, inr, ==_refl, some, arith,
}
use mathlib.Core.Option.{get_or}
use cgdb.Wm.Resize.{Orientation}
use cgdb.Wm.Tree.{
  Window, window, splitter, Windows, nil, cons, address, child_index, array_remove, wm_split,
  undefined, promotes, close_below, close_below_all, Manager, wm_close, closed, done, or_else,
  left_with, left_with_all, of_main, focus_after,
}
use cgdb.Wm.Tree.Split.{index_first, index_rest}
use cgdb.Wm.Tree.Close.{remove_some, closes}
use cgdb.Wm.Tree.Focus.{kids_some}

-- The window `w` and another child, in either order.
abbrev pub two : Bool → ℕ → Window → Windows
two true w c = cons (window w) (cons c nil)
two false w c = cons c (cons (window w) nil)

abbrev pub place : Bool → ℕ
place true = 0
place false = 1

abbrev pub of_two : Bool → ℕ → Orientation → ℕ → Window → ℕ → Bool → Manager
of_two first i o w c focus freed = record {
  main_window = splitter i o (two first w c);
  focused_window = focus;
  parent_freed = freed;
}

-- What closing `w` leaves: `c` is put up with the focus and a freed parent.
abbrev pub put_up : Window → Manager
put_up c = record { main_window = c; focused_window = address c; parent_freed = true }

index_two :
    (first : Bool) (w : ℕ) (c : Window)
    → (address c == w) ≡ false
    → child_index w (two first w c) ≡ some (place first)
index_two true w c h = index_first w (window w) (cons c nil) (==_refl w)
index_two false w c h =
    index_rest w c (cons (window w) nil) h ∙ rw (index_first w (window w) nil (==_refl w)) refl

removed_two :
    (first : Bool) (w : ℕ) (c : Window) → array_remove (place first) (two first w c) ≡ cons c nil
unfolding array_remove
removed_two true w c = refl
removed_two false w c = refl

module _ (first : Bool) (i : ℕ) (o : Orientation) (w : ℕ) (c : Window) (focus : ℕ) (freed : Bool)
    (apart : (address c == w) ≡ false) where
  left_two : left_with w (splitter i o (two first w c)) ≡ some (cons c nil)
  unfolding left_with
  left_two =
      ap (λ z. or_else z (left_with_all w (two first w c)))
        (kids_some w (place first) (two first w c) (index_two first w c apart))
      ∙ ap some (removed_two first w c)

  main_two : of_main w (splitter i o (two first w c)) ≡ true
  unfolding of_main
  main_two = rw (of_main, index_two first w c apart) refl

  promotes_two : promotes (of_two first i o w c focus freed) w ≡ true
  unfolding promotes
  promotes_two = rw (promotes, left_two, main_two) refl

  focus_two : focus_after (of_two first i o w c focus freed) w ≡ address c
  unfolding focus_after
  focus_two = elim (Bool-cases (focus == w)) [
    | inl f ↦ rw (focus_after, left_two, main_two, f) refl
    | inr f ↦ rw (focus_after, left_two, main_two, f) refl
  ]

  below_two : close_below w (splitter i o (two first w c)) ≡ c
  unfolding close_below
  below_two =
      ap (λ z. get_or z (splitter i o (close_below_all w (two first w c))))
        (remove_some i o w (place first) (two first w c) (index_two first w c apart))
      ∙ rw (removed_two first w c) refl

  closed_two : closed (of_two first i o w c focus freed) w ≡ put_up c
  unfolding closed
  closed_two =
      rw (below_two, focus_two, promotes_two)
        (ap (λ b. record (put_up c) { parent_freed = b }) or_true)
    where
      or_true : freed || true ≡ true
      or_true = ground arith

-- The child is the window `v`.
abbrev pub is_window : ℕ → Window → Bool
is_window v (window j) = j == v
is_window v (splitter j o ws) = false

-- The window that is closed: `c` itself, or one of the two children of the splitter `c`.
abbrev pub is_upper : ℕ → Window → Bool
is_upper v (window j) = j == v
is_upper v (splitter j o (cons x (cons y nil))) = is_window v x || is_window v y
is_upper v _ = false

-- A main splitter that is left with one child.
promotes_kids :
    (v k j : ℕ) (o : Orientation) (ws : Windows) (d : Window)
    → child_index v ws ≡ some k
    → array_remove k ws ≡ cons d nil
    → promotes (put_up (splitter j o ws)) v ≡ true
unfolding promotes left_with of_main
promotes_kids v k j o ws d q r =
    let left : left_with v (splitter j o ws) ≡ some (cons d nil) =
      ap (λ z. or_else z (left_with_all v ws)) (kids_some v k ws q) ∙ ap some r in
    let child : of_main v (splitter j o ws) ≡ true = rw (of_main, q) refl in
    rw (promotes, left, child) refl

upper_promotes :
    (v j : ℕ) (o : Orientation) (x y : Window)
    → address x == v || address y == v ≡ true
    → promotes (put_up (splitter j o (cons x (cons y nil)))) v ≡ true
unfolding array_remove
upper_promotes v j o x y h =
    let ws = cons x (cons y nil) in
    elim (Bool-cases (address x == v)) [
      | inl e ↦ promotes_kids v 0 j o ws y (index_first v x (cons y nil) e) refl
      | inr e ↦
          let other : (address y == v) ≡ true = ground (arith, h, e) in
          promotes_kids v 1 j o ws x
            (index_rest v x (cons y nil) e ∙ rw (index_first v y nil other) refl) refl
    ]

is_window_lem : (v : ℕ) (x : Window) → is_window v x ≡ true → (address x == v) ≡ true
is_window_lem v (window j) h = h
is_window_lem v (splitter j o ws) h = cc

is_child :
    (v : ℕ) (x y : Window)
    → is_window v x || is_window v y ≡ true
    → address x == v || address y == v ≡ true
is_child v x y h = elim (Bool-cases (is_window v x)) [
  | inl e ↦ ground (arith, is_window_lem v x e)
  | inr e ↦ ground (arith, is_window_lem v y (ground (arith, h, e)))
]

close_upper :
    (v : ℕ) (c : Window) → is_upper v c ≡ true → wm_close (put_up c) (window v) ≡ undefined
unfolding wm_close
close_upper v (window j) h = rw h refl
close_upper v (splitter j o nil) h = cc
close_upper v (splitter j o (cons x nil)) h = cc
close_upper v (splitter j o (cons x (cons y nil))) h = elim (Bool-cases (j == v)) [
  | inl e ↦ rw e refl
  | inr e ↦ rw (e, upper_promotes v j o x y (is_child v x y h)) refl
]
close_upper v (splitter j o (cons x (cons y (cons z zs)))) h = cc

-- When one of the two children of the main splitter, a window, is closed, the other child is the main
-- window and has the focus, and its parent is the splitter that was freed. The next split reads that
-- splitter, and so does closing this child, when it is a window, or a window that is one of its two
-- children, when it is a splitter of two. The main splitter had no freed parent, and the closed window's address is not that of the splitter or of
-- its other child.
pub wm_close_then :
    (first : Bool) (i : ℕ) (o : Orientation) (w : ℕ) (c : Window) (focus fresh n v : ℕ)
    (dir : Orientation)
    → (address c == w) ≡ false
    → (i == w) ≡ false
    → is_upper v c ≡ true
    → (wm_close (of_two first i o w c focus false) (window w) ≡ done (put_up c))
      × (wm_split fresh (put_up c) (window n) dir ≡ undefined)
      × (wm_close (put_up c) (window v) ≡ undefined)
unfolding wm_split
wm_close_then first i o w c focus fresh n v dir apart h u = (
  closes (of_two first i o w c focus false) w h refl
      ∙ ap done (closed_two first i o w c focus false apart),
  rw (==_refl (address c)) refl,
  close_upper v c u,
)
