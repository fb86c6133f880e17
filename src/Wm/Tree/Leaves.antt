-- ===== src/Wm/Tree/Leaves.antt =====
-- lib/wm: the windows of a tree, in the order in which they are shown.
use cgdb.Base.{
  ℕ, suc, Bool, true, false, ◌&&◌, ◌||◌, not, ◌==◌, leb, if◌then◌else◌, List, [], ◌∷◌, ◌++◌, ◌≡◌,
  refl, ap, arith, Bool-cases, inl, inr, ==→≡,
}
use cgdb.Wm.Tree.{Window, window, splitter, Windows, nil, cons, address}

unfoldable mutual
  pub leaves : Window → List ℕ
  leaves (window i) = i ∷ []
  leaves (splitter i o ws) = leaves_all ws

  pub leaves_all : Windows → List ℕ
  leaves_all nil = []
  leaves_all (cons c ws) = leaves c ++ leaves_all ws

-- Neither a window nor a splitter stands at `w`.
unfoldable mutual
  pub free : ℕ → Window → Bool
  free w (window i) = not (i == w)
  free w (splitter i o ws) = not (i == w) && free_all w ws

  pub free_all : ℕ → Windows → Bool
  free_all w nil = true
  free_all w (cons c ws) = free w c && free_all w ws

-- One window stands at `w`, and no splitter.
unfoldable mutual
  pub once : ℕ → Window → Bool
  once w (window i) = i == w
  once w (splitter i o ws) = not (i == w) && once_all w ws

  pub once_all : ℕ → Windows → Bool
  once_all w nil = false
  once_all w (cons c ws) = (once w c && free_all w ws) || (free w c && once_all w ws)

abbrev pub size : Windows → ℕ
size nil = 0
size (cons c ws) = suc (size ws)

-- Every splitter has two children or more.
unfoldable mutual
  pub full : Window → Bool
  full (window i) = true
  full (splitter i o ws) = leb 2 (size ws) && full_all ws

  pub full_all : Windows → Bool
  full_all nil = true
  full_all (cons c ws) = full c && full_all ws

abbrev pub absent : ℕ → List ℕ → Bool
absent w [] = true
absent w (x ∷ xs) = not (x == w) && absent w xs

-- `n` right behind `w`.
abbrev pub insert_behind : ℕ → ℕ → List ℕ → List ℕ
insert_behind w n [] = []
insert_behind w n (x ∷ xs) = if x == w then x ∷ n ∷ xs else x ∷ insert_behind w n xs

abbrev pub without : ℕ → List ℕ → List ℕ
without w [] = []
without w (x ∷ xs) = if x == w then without w xs else x ∷ without w xs

pub absent-append : (w : ℕ) (xs ys : List ℕ) → absent w (xs ++ ys) ≡ (absent w xs && absent w ys)
absent-append w [] ys = refl
absent-append w (x ∷ xs) ys = ground (arith, absent-append w xs ys)

pub insert_behind-append :
    (w n : ℕ) (xs ys : List ℕ)
    → insert_behind w n (xs ++ ys)
      ≡ (if absent w xs then xs ++ insert_behind w n ys else insert_behind w n xs ++ ys)
insert_behind-append w n [] ys = refl
insert_behind-append w n (x ∷ xs) ys = elim (Bool-cases (x == w)) [
  | inl h ↦ rw h refl
  | inr h ↦ elim (Bool-cases (absent w xs)) [
    | inl k ↦ ground (arith, h, k, insert_behind-append w n xs ys)
    | inr k ↦ ground (arith, h, k, insert_behind-append w n xs ys)
  ]
]

pub without-append : (w : ℕ) (xs ys : List ℕ) → without w (xs ++ ys) ≡ without w xs ++ without w ys
without-append w [] ys = refl
without-append w (x ∷ xs) ys = ground (arith, without-append w xs ys)

pub without-absent : (w : ℕ) (xs : List ℕ) → absent w xs ≡ true → without w xs ≡ xs
without-absent w [] h = refl
without-absent w (x ∷ xs) h = ground (arith, h, without-absent w xs (ground (arith, h)))

mutual
  unfolding leaves free

  pub free-absent : (w : ℕ) (c : Window) → free w c ≡ true → absent w (leaves c) ≡ true
  free-absent w (window i) h = ground (arith, h)
  free-absent w (splitter i o ws) h = free_all-absent w ws (ground (arith, h))

  pub free_all-absent :
      (w : ℕ) (ws : Windows) → free_all w ws ≡ true → absent w (leaves_all ws) ≡ true
  free_all-absent w nil h = refl
  free_all-absent w (cons c ws) h = ground (
    arith,
    absent-append w (leaves c) (leaves_all ws),
    free-absent w c (ground (arith, h)),
    free_all-absent w ws (ground (arith, h)),
  )

mutual
  unfolding leaves once

  pub once-absent : (w : ℕ) (c : Window) → once w c ≡ true → absent w (leaves c) ≡ false
  once-absent w (window i) h = ground (arith, h)
  once-absent w (splitter i o ws) h = once_all-absent w ws (ground (arith, h))

  pub once_all-absent :
      (w : ℕ) (ws : Windows) → once_all w ws ≡ true → absent w (leaves_all ws) ≡ false
  once_all-absent w nil h = ground (arith, h)
  once_all-absent w (cons c ws) h = elim (Bool-cases (once w c)) [
    | inl k ↦ ground (arith, absent-append w (leaves c) (leaves_all ws), once-absent w c k)
    | inr k ↦ ground (
      arith,
      absent-append w (leaves c) (leaves_all ws),
      k,
      once_all-absent w ws (ground (arith, h, k)),
    )
  ]

-- What is there is not missing.
pub once-free : (w : ℕ) (c : Window) → once w c ≡ true → free w c ≡ false
once-free w c h = elim (Bool-cases (free w c)) [
  | inl f ↦ ground (arith, free-absent w c f, once-absent w c h)
  | inr f ↦ f
]

pub once_window :
    (w : ℕ) (c : Window) → once w c ≡ true → (address c == w) ≡ true → Path Window c (window w)
unfolding once
once_window w (window i) h k = ap {B = Window} window (==→≡ i w k)
once_window w (splitter i o ws) h k = ground (arith, h, k)
