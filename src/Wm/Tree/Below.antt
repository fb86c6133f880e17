-- ===== src/Wm/Tree/Below.antt =====
-- lib/wm: `wm_split` on the whole tree.
use cgdb.Base.{
  ℕ, suc, true, false, ◌==◌, ◌++◌, ◌≡◌, refl, ◌∙◌, sym, ap, arith, subst, Bool-cases, inl, inr,
  none, Option-cases,
}
use mathlib.Core.Option.{some-ne-none}
use cgdb.Wm.Resize.{Orientation}
use cgdb.Wm.Tree.{
  Window, window, splitter, Windows, nil, cons, address, child_index, split_below, split_below_all,
  with_children,
}
use cgdb.Wm.Tree.Leaves.{
  leaves, leaves_all, free, free_all, once, once_all, size, full, full_all, insert_behind,
  insert_behind-append, once-absent, once-free,
}
use cgdb.Wm.Tree.Split.{
  index_first, index_rest, free-no_child, split_none, split_some, split_kids, Behind, rest_split,
}

-- No child is the window itself.
pub no_child :
    (w : ℕ) (c : Window) (ws : Windows)
    → child_index w (cons c ws) ≡ none
    → ((address c == w) ≡ false) × (child_index w ws ≡ none)
no_child w c ws h = elim (Bool-cases (address c == w)) [
  | inl k ↦ absurd (some-ne-none 0 (sym (index_first w c ws k) ∙ h))
  | inr k ↦ elim (Option-cases (child_index w ws)) [
    | inl e ↦ (k, e)
    | inr (i, e) ↦ absurd (some-ne-none (suc i) (sym (index_rest w c ws k ∙ rw e refl) ∙ h))
  ]
]

module _ (fresh w n : ℕ) (o : Orientation) where
  mutual
    unfolding free split_below

    below_free : (c : Window) → free w c ≡ true → split_below fresh w (window n) o c ≡ c
    below_free (window i) h = refl
    below_free (splitter i po ws) h =
        let f : free_all w ws ≡ true = ground (arith, h) in
        let e = split_none fresh po w n o ws (free-no_child w ws f) in
        ap (with_children i po (split_below_all fresh w (window n) o ws)) e
        ∙ ap {B = Window} (splitter i po) (below_free_all ws f)

    below_free_all :
        (ws : Windows) → free_all w ws ≡ true → split_below_all fresh w (window n) o ws ≡ ws
    below_free_all nil h = refl
    below_free_all (cons c ws) h =
        rw (below_free c (ground (arith, h)), below_free_all ws (ground (arith, h))) refl

  mutual
    unfolding once once_all split_below leaves leaves_all full full_all

    pub below_lem :
        (c : Window)
        → once w c ≡ true
        → (address c == w) ≡ false
        → (leaves (split_below fresh w (window n) o c) ≡ insert_behind w n (leaves c))
          × (full c ≡ true → full (split_below fresh w (window n) o c) ≡ true)
    below_lem (window i) h k = ground (arith, h, k)
    below_lem (splitter i po ws) h k = elim (Option-cases (child_index w ws)) [
      | inl q ↦
          let e = split_none fresh po w n o ws q in
          let (l, f, s) = below_all_lem ws (ground (arith, h)) q in
          let there = ap (with_children i po (split_below_all fresh w (window n) o ws)) e in
          (ap leaves there ∙ l, λ g. ap full there ∙ ground (arith, f (ground (arith, g)), g, s))
      | inr (j, q) ↦
          let (kids, e) = split_some fresh po w n o ws j q in
          let (l, f, s) = split_kids fresh po w n o ws kids e (ground (arith, h)) in
          let there = ap (with_children i po (split_below_all fresh w (window n) o ws)) e in
          (ap leaves there ∙ l, λ g. ap full there ∙ ground (arith, f (ground (arith, g)), g, s))
    ]

    below_all_lem :
        (ws : Windows)
        → once_all w ws ≡ true
        → child_index w ws ≡ none
        → Behind fresh o w n o ws (split_below_all fresh w (window n) o ws)
    below_all_lem nil h k = ground (arith, h)
    below_all_lem (cons c ws) h k =
        let (apart, none_below) = no_child w c ws k in
        let others = split_below_all fresh w (window n) o ws in
        elim (Bool-cases (once w c)) [
          | inl y ↦
              let missing : free w c ≡ false = once-free w c y in
              let f : free_all w ws ≡ true = ground (arith, h, y, missing) in
              let same : others ≡ ws = below_free_all ws f in
              let (l, g) = below_lem c y apart in
              (
                ap (λ z. leaves (split_below fresh w (window n) o c) ++ leaves_all z) same
                    ∙ ground (
                      arith,
                      l,
                      insert_behind-append w n (leaves c) (leaves_all ws),
                      once-absent w c y,
                    ),
                λ x. ground (arith, g (ground (arith, x)), ap full_all same, x),
                omega (arith, ap size same),
              )
          | inr y ↦
              let f : free w c ≡ true = ground (arith, h, y) in
              let rest = below_all_lem ws (ground (arith, h, y)) none_below in
              let same : split_below fresh w (window n) o c ≡ c = below_free c f in
              subst (λ x. Behind fresh o w n o (cons c ws) (cons x others)) (sym same)
                (rest_split fresh o w n o c ws others f rest)
        ]
