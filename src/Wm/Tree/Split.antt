-- ===== src/Wm/Tree/Split.antt =====
-- lib/wm: what `wm_split` does to the windows of the tree.
use cgdb.Base.{
  ℕ, suc, ◌≤◌, Bool, true, false, ◌==◌, if◌then◌else◌, ◌++◌, ◌≡◌, refl, ◌∙◌, sym, ap, arith, subst,
  Bool-cases, inl, inr, ==_refl, Option, none, some, Option-cases,
}
use mathlib.Core.Option.{some-injective, none-ne-some}
use cgdb.Wm.Resize.{Orientation, same_orientation}
use cgdb.Wm.Tree.{
  Window, window, splitter, Windows, nil, cons, address, child_index, child_at, array_insert,
  array_remove, splitter_split,
}
use cgdb.Wm.Tree.Leaves.{
  leaves, leaves_all, free, free_all, once, once_all, size, full, full_all, insert_behind,
  insert_behind-append, free-absent, once-absent, once_window,
}

array_insert-zero : (x : Window) (ws : Windows) → array_insert 0 x ws ≡ cons x ws
unfolding array_insert
array_insert-zero x nil = refl
array_insert-zero x (cons c ws) = refl

pub index_first :
    (w : ℕ) (c : Window) (ws : Windows)
    → (address c == w) ≡ true
    → child_index w (cons c ws) ≡ some 0
unfolding child_index
index_first w c ws h = rw h refl

pub index_rest :
    (w : ℕ) (c : Window) (ws : Windows)
    → (address c == w) ≡ false
    → child_index w (cons c ws) ≡ elim (child_index w ws) [ none ↦ none | some i ↦ some (suc i) ]
unfolding child_index
index_rest w c ws h = rw h refl

pub apart_free : (w : ℕ) (c : Window) → free w c ≡ true → (address c == w) ≡ false
unfolding free
apart_free w (window i) h = ground (arith, h)
apart_free w (splitter i q ws) h = ground (arith, h)

pub free-no_child : (w : ℕ) (ws : Windows) → free_all w ws ≡ true → child_index w ws ≡ none
unfolding free_all
free-no_child w nil h = unfold child_index in refl
free-no_child w (cons c ws) h =
    let other = apart_free w c (ground (arith, h)) in
    index_rest w c ws other ∙ rw (free-no_child w ws (ground (arith, h))) refl

module _ (fresh : ℕ) (po : Orientation) (w n : ℕ) (o : Orientation) where
  -- The splitter's children, when the first one is split.
  split_first :
      (c : Window) (ws : Windows)
      → (address c == w) ≡ true
      → splitter_split fresh po (cons c ws) w (window n) o
        ≡ some (
            if same_orientation o po
            then cons c (cons (window n) ws)
            else cons (splitter fresh o (cons c (cons (window n) nil))) ws)
  unfolding splitter_split
  split_first c ws h =
      let e : array_insert 1 (window n) (cons c ws) ≡ cons c (cons (window n) ws) =
        unfold array_insert in ap (cons c) (array_insert-zero (window n) ws) in
      let f : array_remove 0 (cons c ws) ≡ ws = unfold array_remove in refl in
      let g = array_insert-zero (splitter fresh o (cons c (cons (window n) nil))) ws in
      rw (splitter_split, index_first w c ws h, e, f, g) refl

  split_rest :
      (c : Window) (ws : Windows)
      → (address c == w) ≡ false
      → splitter_split fresh po (cons c ws) w (window n) o
        ≡ elim (splitter_split fresh po ws w (window n) o) [
          | none ↦ none
          | some kids ↦ some (cons c kids)
        ]
  unfolding splitter_split
  split_rest c ws h = elim (Option-cases (child_index w ws)) [
    | inl e ↦ rw (splitter_split, index_rest w c ws h, e) refl
    | inr (i, e) ↦ elim (Bool-cases (same_orientation o po)) [
      | inl s ↦ rw (splitter_split, index_rest w c ws h, e, s) (unfold array_insert in refl)
      | inr s ↦
          rw (splitter_split, index_rest w c ws h, e, s) (unfold array_insert array_remove in refl)
    ]
  ]

  pub split_none :
      (ws : Windows) → child_index w ws ≡ none → splitter_split fresh po ws w (window n) o ≡ none
  unfolding splitter_split
  split_none ws h = rw (splitter_split, h) refl

  pub split_some :
      (ws : Windows) (k : ℕ)
      → child_index w ws ≡ some k
      → (kids : Windows) × (splitter_split fresh po ws w (window n) o ≡ some kids)
  unfolding splitter_split
  split_some ws k h =
      let pair = splitter fresh o (cons (child_at k (window n) ws) (cons (window n) nil)) in
      (
        if same_orientation o po
            then array_insert (suc k) (window n) ws
            else array_insert k pair (array_remove k ws),
        rw (splitter_split, h) refl,
      )

  -- The new window stands behind `w`, and no splitter has lost a child.
  abbrev pub Behind : Windows → Windows → Type 0
  Behind ws kids =
      (leaves_all kids ≡ insert_behind w n (leaves_all ws))
      × (full_all ws ≡ true → full_all kids ≡ true)
      × (size ws ≤ size kids)

  first_split :
      (ws : Windows) (b : Bool)
      → Behind (cons (window w) ws) (
          if b
          then cons (window w) (cons (window n) ws)
          else cons (splitter fresh o (cons (window w) (cons (window n) nil))) ws)
  unfolding leaves_all leaves full_all full
  first_split ws true = (ground (arith, ==_refl w), λ h. h, omega arith)
  first_split ws false = (ground (arith, ==_refl w), λ h. ground (arith, h), omega arith)

  pub rest_split :
      (c : Window) (ws kids : Windows)
      → free w c ≡ true
      → Behind ws kids
      → Behind (cons c ws) (cons c kids)
  unfolding leaves_all full_all
  rest_split c ws kids f (l, g, s) = (
    ap (λ z. leaves c ++ z) l
        ∙ ground (arith, insert_behind-append w n (leaves c) (leaves_all ws), free-absent w c f),
    λ h. ground (arith, g (ground (arith, h)), h),
    omega (arith, s),
  )

  pub split_kids :
      (ws kids : Windows)
      → splitter_split fresh po ws w (window n) o ≡ some kids
      → once_all w ws ≡ true
      → Behind ws kids
  unfolding once_all
  split_kids nil kids e h = ground (arith, h)
  split_kids (cons c ws) kids e h = elim (Bool-cases (address c == w)) [
    | inl k ↦
        let not_free : free w c ≡ false = elim (Bool-cases (free w c)) [
          | inl f ↦ ground (arith, apart_free w c f, k)
          | inr f ↦ f
        ] in
        let one : Path Window c (window w) = once_window w c (ground (arith, h, not_free)) k in
        let b = same_orientation o po in
        let there : (if b
              then cons c (cons (window n) ws)
              else cons (splitter fresh o (cons c (cons (window n) nil))) ws)
            ≡ kids =
          some-injective _ _ (sym (split_first c ws k) ∙ e) in
        subst (Behind (cons c ws)) there (
          subst
            (λ x. Behind (cons x ws) (
              if b
              then cons x (cons (window n) ws)
              else cons (splitter fresh o (cons x (cons (window n) nil))) ws))
            (sym one) (first_split ws b))
    | inr k ↦ elim (Option-cases (splitter_split fresh po ws w (window n) o)) [
      | inl q ↦
          let lost : Path (Option Windows) none (some kids) =
            sym (split_rest c ws k ∙ rw q refl) ∙ e in
          absurd (none-ne-some kids lost)
      | inr (rest, q) ↦
          let there : cons c rest ≡ kids =
            some-injective _ _ (sym (split_rest c ws k ∙ rw q refl) ∙ e) in
          let unlike : once w c ≡ false = elim (Bool-cases (once w c)) [
            | inl y ↦ elim (Bool-cases (free_all w ws)) [
              | inl g ↦
                  let lost : Path (Option Windows) none (some rest) =
                    sym (split_none ws (free-no_child w ws g)) ∙ q in
                  absurd (none-ne-some rest lost)
              | inr g ↦
                  let f : free w c ≡ true = ground (arith, h, g) in
                  ground (arith, free-absent w c f, once-absent w c y)
            ]
            | inr y ↦ y
          ] in
          subst (Behind (cons c ws)) there (
            rest_split c ws rest (ground (arith, h, unlike))
              (split_kids ws rest q (ground (arith, h, unlike))))
    ]
  ]
