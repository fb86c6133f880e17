-- ===== src/Wm/Tree/Close.antt =====
-- lib/wm: `wm_close` on the whole tree.
use cgdb.Base.{
  ℕ, suc, ◌≤◌, true, false, ◌==◌, ◌++◌, ◌≡◌, refl, ◌∙◌, sym, ap, arith, subst, Bool-cases, inl, inr,
  ==_refl, none, some, Option-cases, append-nil,
}
use mathlib.Core.Option.{some-ne-none, some-injective, get_or}
use cgdb.Wm.Resize.{Orientation}
use cgdb.Wm.Tree.{
  Window, window, splitter, Windows, nil, cons, address, child_index, array_remove, collapse,
  splitter_remove, close_below, close_below_all, Manager, wm_close, closed, promotes, done,
}
use cgdb.Wm.Tree.Leaves.{
  leaves, leaves_all, free, free_all, once, once_all, size, full, full_all, without, without-append,
  without-absent, free-absent, free_all-absent, once-free, once_window,
}
use cgdb.Wm.Tree.Split.{index_first, index_rest, apart_free, free-no_child}
use cgdb.Wm.Tree.Below.{no_child}

-- `w` is gone, and nothing else.
abbrev pub Gone : ℕ → Windows → Windows → Type 0
Gone w ws kids =
    (leaves_all kids ≡ without w (leaves_all ws)) × (full_all ws ≡ true → full_all kids ≡ true)

rest_closed :
    (w : ℕ) (c : Window) (ws kids : Windows)
    → free w c ≡ true
    → Gone w ws kids
    → Gone w (cons c ws) (cons c kids)
unfolding leaves_all full_all
rest_closed w c ws kids f (l, g) = (
  ap (λ z. leaves c ++ z) l
      ∙ ground (
        arith,
        without-append w (leaves c) (leaves_all ws),
        without-absent w (leaves c) (free-absent w c f),
      ),
  λ h. ground (arith, g (ground (arith, h)), h),
)

-- When the child that is found stands once, it is the window, and the others do not have it.
found_free :
    (w : ℕ) (c : Window) (ws : Windows)
    → once_all w (cons c ws) ≡ true
    → (address c == w) ≡ true
    → Path Window c (window w) × (free_all w ws ≡ true)
unfolding once_all
found_free w c ws h k =
    let missing : free w c ≡ false = elim (Bool-cases (free w c)) [
      | inl f ↦ ground (arith, apart_free w c f, k)
      | inr f ↦ f
    ] in
    let one : once w c ≡ true = ground (arith, h, missing) in
    (once_window w c one k, ground (arith, h, missing))

-- When a later child is found, the window is among the later ones only.
found_rest :
    (w k : ℕ) (c : Window) (ws : Windows)
    → once_all w (cons c ws) ≡ true
    → child_index w ws ≡ some k
    → (free w c ≡ true) × (once_all w ws ≡ true)
unfolding once_all
found_rest w k c ws h e = elim (Bool-cases (free_all w ws)) [
  | inl f ↦ absurd (some-ne-none k (sym e ∙ free-no_child w ws f))
  | inr f ↦ ground (arith, h, f)
]

pub remove_kids :
    (w k : ℕ) (ws : Windows)
    → child_index w ws ≡ some k
    → once_all w ws ≡ true
    → Gone w ws (array_remove k ws) × (size ws ≡ suc (size (array_remove k ws)))
unfolding array_remove
remove_kids w k nil e h = absurd (some-ne-none k (sym e ∙ (unfold child_index in refl)))
remove_kids w k (cons c ws) e h = elim (Bool-cases (address c == w)) [
  | inl b ↦
      let zero_lem : 0 ≡ k = some-injective 0 k (sym (index_first w c ws b) ∙ e) in
      let (same, f) = found_free w c ws h b in
      let gone : Gone w (cons (window w) ws) ws =
        unfold leaves leaves_all full_all in
        (
          ground (arith, ==_refl w, without-absent w (leaves_all ws) (free_all-absent w ws f)),
          λ g. ground (arith, g),
        ) in
      subst
        (λ j.
          Gone w (cons c ws) (array_remove j (cons c ws))
          × (suc (size ws) ≡ suc (size (array_remove j (cons c ws)))))
        zero_lem (subst (λ x. Gone w (cons x ws) ws) (sym same) gone, refl)
  | inr b ↦ elim (Option-cases (child_index w ws)) [
    | inl q ↦ absurd (some-ne-none k (sym e ∙ index_rest w c ws b ∙ rw q refl))
    | inr (j, q) ↦
        let next : suc j ≡ k =
          some-injective (suc j) k (sym (index_rest w c ws b ∙ rw q refl) ∙ e) in
        let (f, one) = found_rest w j c ws h q in
        let (gone, s) = remove_kids w j ws q one in
        subst
          (λ i.
            Gone w (cons c ws) (array_remove i (cons c ws))
            × (suc (size ws) ≡ suc (size (array_remove i (cons c ws)))))
          next (rest_closed w c ws (array_remove j ws) f gone, ap suc s)
  ]
]

collapse_lem :
    (i : ℕ) (o : Orientation) (ws : Windows)
    → (leaves (collapse i o ws) ≡ leaves_all ws)
      × (full_all ws ≡ true → 1 ≤ size ws → full (collapse i o ws) ≡ true)
unfolding leaves leaves_all full full_all
collapse_lem i o nil = (refl, λ f l. ground (arith, l))
collapse_lem i o (cons c nil) = (sym (append-nil (leaves c)), λ f l. ground (arith, f))
collapse_lem i o (cons c (cons d ws)) = (refl, λ f l. ground (arith, f))

pub remove_none :
    (i : ℕ) (o : Orientation) (w : ℕ) (ws : Windows)
    → child_index w ws ≡ none
    → splitter_remove i o ws w ≡ none
unfolding splitter_remove
remove_none i o w ws h = rw (splitter_remove, h) refl

pub remove_some :
    (i : ℕ) (o : Orientation) (w k : ℕ) (ws : Windows)
    → child_index w ws ≡ some k
    → splitter_remove i o ws w ≡ some (collapse i o (array_remove k ws))
unfolding splitter_remove
remove_some i o w k ws h = rw (splitter_remove, h) refl

module _ (w : ℕ) where
  mutual
    unfolding free close_below

    pub close_free : (c : Window) → free w c ≡ true → close_below w c ≡ c
    close_free (window i) h = refl
    close_free (splitter i o ws) h =
        let f : free_all w ws ≡ true = ground (arith, h) in
        let e = remove_none i o w ws (free-no_child w ws f) in
        ap (λ z. get_or z (splitter i o (close_below_all w ws))) e
        ∙ ap {B = Window} (splitter i o) (close_free_all ws f)

    pub close_free_all : (ws : Windows) → free_all w ws ≡ true → close_below_all w ws ≡ ws
    close_free_all nil h = refl
    close_free_all (cons c ws) h =
        rw (close_free c (ground (arith, h)), close_free_all ws (ground (arith, h))) refl

  mutual
    unfolding once once_all close_below leaves leaves_all full full_all

    pub close_lem :
        (c : Window)
        → once w c ≡ true
        → (address c == w) ≡ false
        → (leaves (close_below w c) ≡ without w (leaves c))
          × (full c ≡ true → full (close_below w c) ≡ true)
    close_lem (window i) h k = ground (arith, h, k)
    close_lem (splitter i o ws) h k = elim (Option-cases (child_index w ws)) [
      | inl q ↦
          let there =
            ap (λ z. get_or z (splitter i o (close_below_all w ws))) (remove_none i o w ws q) in
          let ((l, f), s) = close_all_lem ws (ground (arith, h)) q in
          (ap leaves there ∙ l, λ g. ap full there ∙ ground (arith, f (ground (arith, g)), g, s))
      | inr (j, q) ↦
          let there =
            ap (λ z. get_or z (splitter i o (close_below_all w ws))) (remove_some i o w j ws q) in
          let ((l, f), s) = remove_kids w j ws q (ground (arith, h)) in
          let (l2, f2) = collapse_lem i o (array_remove j ws) in
          (
            ap leaves there ∙ l2 ∙ l,
            λ g. ap full there ∙ f2 (f (ground (arith, g))) (ground (arith, g, s)),
          )
    ]

    close_all_lem :
        (ws : Windows)
        → once_all w ws ≡ true
        → child_index w ws ≡ none
        → Gone w ws (close_below_all w ws) × (size (close_below_all w ws) ≡ size ws)
    close_all_lem nil h k = ground (arith, h)
    close_all_lem (cons c ws) h k =
        let (apart, none_below) = no_child w c ws k in
        let others = close_below_all w ws in
        elim (Bool-cases (once w c)) [
          | inl y ↦
              let missing : free w c ≡ false = once-free w c y in
              let f : free_all w ws ≡ true = ground (arith, h, y, missing) in
              let same : others ≡ ws = close_free_all ws f in
              let (l, g) = close_lem c y apart in
              (
                (
                  ap (λ z. leaves (close_below w c) ++ leaves_all z) same
                      ∙ ground (
                        arith,
                        l,
                        without-append w (leaves c) (leaves_all ws),
                        without-absent w (leaves_all ws) (free_all-absent w ws f),
                      ),
                  λ x. ground (arith, g (ground (arith, x)), ap full_all same, x),
                ),
                ap (λ z. suc (size z)) same,
              )
          | inr y ↦
              let f : free w c ≡ true = ground (arith, h, y) in
              let (rest, s) = close_all_lem ws (ground (arith, h, y)) none_below in
              let same : close_below w c ≡ c = close_free c f in
              (
                subst (λ x. Gone w (cons c ws) (cons x others)) (sym same)
                    (rest_closed w c ws others f rest),
                ap suc s,
              )
        ]

-- The window manager does what it can when the main window has no freed parent.
pub closes :
    (m : Manager) (w : ℕ)
    → (address m.main_window == w) ≡ false
    → m.parent_freed ≡ false
    → wm_close m (window w) ≡ done (closed m w)
unfolding wm_close
closes m w k p = elim (Bool-cases (promotes m w)) [
  | inl t ↦ rw (k, t, p) refl
  | inr t ↦ rw (k, t) refl
]
