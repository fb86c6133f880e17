-- ===== src/Wm/Tree/Focus.antt =====
-- lib/wm: the focus after `wm_close`.
use cgdb.Base.{
  ℕ, ◌≤◌, true, false, ◌&&◌, ◌||◌, ◌==◌, List, [], ◌∷◌, ◌≡◌, refl, ◌∙◌, ap, arith, Bool-cases, inl,
  inr, ==_refl, none, some, Option-cases,
}
use mathlib.Core.Option.{get_or}
use cgdb.Wm.Resize.{Orientation}
use cgdb.Wm.Tree.{
  Window, window, splitter, Windows, nil, cons, address, child_index, array_remove, collapse,
  close_below, close_below_all, Manager, wm_close, closed, done, or_else, kids_without, left_with,
  left_with_all, first_child, of_main, alone, focus_after,
}
use cgdb.Wm.Tree.Leaves.{
  leaves, free, free_all, once, once_all, size, full, full_all, absent, without, free-absent,
}
use cgdb.Wm.Tree.Split.{free-no_child}
use cgdb.Wm.Tree.Below.{no_child}
use cgdb.Wm.Tree.Close.{remove_kids, remove_none, remove_some, close_lem, closes}

address-free : (c : Window) → free (address c) c ≡ false
unfolding free
address-free (window i) = ground (arith, ==_refl i)
address-free (splitter i o ws) = ground (arith, ==_refl i)

collapse_first :
    (i : ℕ) (o : Orientation) (d : Window) (ws : Windows)
    → 1 ≤ size ws
    → free (address (first_child d ws)) (collapse i o ws) ≡ false
unfolding free free_all
collapse_first i o d nil h = ground (arith, h)
collapse_first i o d (cons c nil) h = address-free c
collapse_first i o d (cons c (cons e ws)) h = ground (arith, address-free c)

kids_none : (w : ℕ) (ws : Windows) → child_index w ws ≡ none → kids_without w ws ≡ none
unfolding kids_without
kids_none w ws h = rw (kids_without, h) refl

pub kids_some :
    (w k : ℕ) (ws : Windows)
    → child_index w ws ≡ some k
    → kids_without w ws ≡ some (array_remove k ws)
unfolding kids_without
kids_some w k ws h = rw (kids_without, h) refl

module _ (w : ℕ) (d : Window) where
  mutual
    unfolding free left_with

    left_free : (c : Window) → free w c ≡ true → left_with w c ≡ none
    left_free (window i) h = refl
    left_free (splitter i o ws) h =
        let f : free_all w ws ≡ true = ground (arith, h) in
        ap (λ z. or_else z (left_with_all w ws)) (kids_none w ws (free-no_child w ws f))
        ∙ left_free_all ws f

    left_free_all : (ws : Windows) → free_all w ws ≡ true → left_with_all w ws ≡ none
    left_free_all nil h = refl
    left_free_all (cons c ws) h =
        ap (λ z. or_else z (left_with_all w ws)) (left_free c (ground (arith, h)))
        ∙ left_free_all ws (ground (arith, h))

  mutual
    unfolding once once_all left_with close_below free free_all full full_all

    pub left_lem :
        (c : Window)
        → once w c ≡ true
        → (address c == w) ≡ false
        → full c ≡ true
        → (kids : Windows) × (left_with w c ≡ some kids)
          × (free (address (first_child d kids)) (close_below w c) ≡ false)
    left_lem (window i) h k g = ground (arith, h, k)
    left_lem (splitter i o ws) h k g = elim (Option-cases (child_index w ws)) [
      | inl q ↦
          let there =
            ap (λ z. get_or z (splitter i o (close_below_all w ws))) (remove_none i o w ws q) in
          let (kids, e, f) = left_all_lem ws (ground (arith, h)) q (ground (arith, g)) in
          (
            kids,
            ap (λ z. or_else z (left_with_all w ws)) (kids_none w ws q) ∙ e,
            ap (free (address (first_child d kids))) there ∙ ground (arith, f),
          )
      | inr (j, q) ↦
          let there =
            ap (λ z. get_or z (splitter i o (close_below_all w ws))) (remove_some i o w j ws q) in
          let kids = array_remove j ws in
          let (_, s) = remove_kids w j ws q (ground (arith, h)) in
          (
            kids,
            ap (λ z. or_else z (left_with_all w ws)) (kids_some w j ws q),
            ap (free (address (first_child d kids))) there
                ∙ collapse_first i o d kids (ground (arith, s, g)),
          )
    ]

    left_all_lem :
        (ws : Windows)
        → once_all w ws ≡ true
        → child_index w ws ≡ none
        → full_all ws ≡ true
        → (kids : Windows) × (left_with_all w ws ≡ some kids)
          × (free_all (address (first_child d kids)) (close_below_all w ws) ≡ false)
    left_all_lem nil h k g = ground (arith, h)
    left_all_lem (cons c ws) h k g =
        let (apart, none_below) = no_child w c ws k in
        elim (Bool-cases (once w c)) [
          | inl y ↦
              let (kids, e, f) = left_lem c y apart (ground (arith, g)) in
              (kids, ap (λ z. or_else z (left_with_all w ws)) e, ground (arith, f))
          | inr y ↦
              let missing : free w c ≡ true = ground (arith, h, y) in
              let (kids, e, f) =
                left_all_lem ws (ground (arith, h, y)) none_below (ground (arith, g)) in
              (
                kids,
                ap (λ z. or_else z (left_with_all w ws)) (left_free c missing) ∙ e,
                ground (arith, f),
              )
        ]

absent-without : (x w : ℕ) (xs : List ℕ) → (x == w) ≡ false → absent x (without w xs) ≡ absent x xs
absent-without x w [] h = refl
absent-without x w (y ∷ xs) h = ground (arith, h, absent-without x w xs h)

focus_after-close_below :
    (m : Manager) (w : ℕ)
    → once w m.main_window ≡ true
    → (address m.main_window == w) ≡ false
    → full m.main_window ≡ true
    → absent m.focused_window (leaves m.main_window) ≡ false
    → free (focus_after m w) (close_below w m.main_window) ≡ false
unfolding focus_after
focus_after-close_below m w h k g a =
    let x = m.focused_window in
    let t = m.main_window in
    let (kids, e, f) = left_lem w t t h k g in
    elim (Bool-cases (x == w || (of_main w t && alone kids))) [
      | inl b ↦
          let there : focus_after m w ≡ address (first_child t kids) =
            rw (focus_after, e, b) refl in
          ap (λ z. free z (close_below w t)) there ∙ f
      | inr b ↦
          let there : focus_after m w ≡ x = rw (focus_after, e, b) refl in
          let other : (x == w) ≡ false = ground (arith, b) in
          let stays : absent x (leaves (close_below w t)) ≡ false =
            ap (absent x) (close_lem w t h k).0 ∙ absent-without x w (leaves t) other ∙ a in
          ap (λ z. free z (close_below w t)) there ∙ elim (Bool-cases (free x (close_below w t))) [
            | inl y ↦ ground (arith, stays, free-absent x (close_below w t) y)
            | inr y ↦ y
          ]
    ]

-- After a window is closed the focus is on a window or a splitter of the tree that is left, whether it
-- was on the closed window or on another one. The closed window's address stands once in the tree, and
-- is not the main window's, the focus was on a window of the tree, every splitter had two children or
-- more, and the main window has no freed parent.
pub wm_close-focused_window :
    (m : Manager) (w : ℕ)
    → once w m.main_window ≡ true
    → (address m.main_window == w) ≡ false
    → full m.main_window ≡ true
    → absent m.focused_window (leaves m.main_window) ≡ false
    → m.parent_freed ≡ false
    → (next : Manager) × (wm_close m (window w) ≡ done next)
      × (free next.focused_window next.main_window ≡ false)
unfolding closed
wm_close-focused_window m w h k g a p =
    (closed m w, closes m w k p, focus_after-close_below m w h k g a)
