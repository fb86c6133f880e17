-- ===== src/Scroller/Trim.antt =====
-- cgdb/scroller.c: the end of `parse`, where the spaces behind the cursor are cut off.
use cgdb.Base.{
  ℕ, zero, suc, ◌+◌, ◌≤◌, ◌<◌, Bool, true, false, ◌&&◌, List, [], ◌∷◌, ◌++◌, ◌≡◌, refl, ◌∙◌, sym,
  ap, arith, length, length-append, append_assoc, append-nil, some, Bool-cases, inl, inr,
  List-cases, before_nul, free_of,
}
use cgdb.Scroller.{put, at, zeros, last_kept, isspace}
use cgdb.Scroller.Editor.{Editor, drop_blanks, tidy, text}
use cgdb.Scroller.Array.{cells, put-append}

abbrev blank : List ℕ → Bool
blank [] = true
blank (x ∷ xs) = isspace x && blank xs

drop_blanks_rest : (xs : List ℕ) → (b : List ℕ) × (xs ≡ drop_blanks xs ++ b) × (blank b ≡ true)
drop_blanks_rest [] = ([], refl, refl)
drop_blanks_rest (x ∷ xs) =
    let (b, e, h) = drop_blanks_rest xs in
    elim (List-cases (drop_blanks xs)) [
      | inl n ↦ elim (Bool-cases (isspace x)) [
        | inl s ↦ (x ∷ xs, rw (n, s) refl, ground (arith, s, ap blank (e ∙ ap (λ d. d ++ b) n), h))
        | inr s ↦ (b, rw (n, s) (ap (λ t. x ∷ t) (e ∙ ap (λ d. d ++ b) n)), h)
      ]
      | inr (y, ys, n) ↦ (b, rw n (ap (λ t. x ∷ t) (e ∙ ap (λ d. d ++ b) n)), h)
    ]

-- What is kept does not end in a space.
drop_blanks_last :
    (xs : List ℕ) (y : ℕ) (ys : List ℕ)
    → drop_blanks xs ≡ y ∷ ys
    → isspace (at (y ∷ ys) (length ys)) ≡ false
drop_blanks_last [] y ys e = ground arith
drop_blanks_last (x ∷ xs) y ys e = elim (List-cases (drop_blanks xs)) [
  | inl n ↦ elim (Bool-cases (isspace x)) [
    | inl s ↦ ground (arith, n, s, e)
    | inr s ↦ ground (arith, n, s, e)
  ]
  | inr (z, zs, n) ↦ ground (arith, n, e, drop_blanks_last xs z zs n)
]

at-append : (l r : List ℕ) (j : ℕ) → at (l ++ r) (length l + j) ≡ at r j
at-append [] r j = ap (at r) (omega arith)
at-append (x ∷ l) r j =
    let next : length (x ∷ l) + j ≡ suc (length l + j) = omega arith in
    ap (at (x ∷ (l ++ r))) next ∙ at-append l r j

at_front : (l r : List ℕ) (j : ℕ) → j < length l → at (l ++ r) j ≡ at l j
at_front [] r j h = ground arith
at_front (x ∷ l) r zero h = refl
at_front (x ∷ l) r (suc j) h = at_front l r j (omega (arith, h))

at_blank : (b : List ℕ) (j : ℕ) → blank b ≡ true → j < length b → isspace (at b j) ≡ true
at_blank [] j h l = ground arith
at_blank (x ∷ b) zero h l = ground (arith, h)
at_blank (x ∷ b) (suc j) h l = at_blank b j (ground (arith, h)) (omega (arith, l))

-- Spaces behind the cursor are passed.
passes :
    (rv : List ℕ) (i n m : ℕ)
    → i < n
    → ((j : ℕ) → j < m → isspace (at rv (n + j)) ≡ true)
    → last_kept rv i (n + m) ≡ last_kept rv i n
unfolding last_kept
passes rv i n zero l h = ap (last_kept rv i) (omega arith)
passes rv i n (suc m) l h =
    let next : n + suc m ≡ suc (n + m) = omega arith in
    let here = h m (omega arith) in
    ap (last_kept rv i) next
    ∙ ground (arith, here, l, passes rv i n m l (λ j k. h j (omega (arith, k))))

stays_cursor : (rv : List ℕ) (i : ℕ) → last_kept rv i i ≡ i
unfolding last_kept
stays_cursor rv zero = refl
stays_cursor rv (suc i) = ground arith

stays_at : (rv : List ℕ) (i : ℕ) → last_kept rv i (suc i) ≡ suc i
unfolding last_kept
stays_at rv i = ground arith

stays_char : (rv : List ℕ) (i j : ℕ) → isspace (at rv j) ≡ false → last_kept rv i (suc j) ≡ suc j
unfolding last_kept
stays_char rv i j h = ground (arith, h)

before_nul-append : (l r : List ℕ) → free_of 0 l ≡ true → before_nul (l ++ 0 ∷ r) ≡ l
before_nul-append [] r h = refl
before_nul-append (x ∷ l) r h = ground (arith, h, before_nul-append l r (ground (arith, h)))

last_kept_lem :
    (l r z : List ℕ) → last_kept ((l ++ r) ++ z) (length l) (length (l ++ r)) ≡ length (l ++ tidy r)
last_kept_lem l [] z =
    let whole : length (l ++ []) ≡ length l = omega (arith, length-append l []) in
    ap (last_kept ((l ++ []) ++ z) (length l)) whole
    ∙ stays_cursor ((l ++ []) ++ z) (length l)
    ∙ sym whole
last_kept_lem l (x ∷ xs) z =
    let (b, e, h) = drop_blanks_rest xs in
    let d = drop_blanks xs in
    let rv = (l ++ x ∷ xs) ++ z in
    let i = length l in
    let n = suc i + length d in
    let size : length (l ++ x ∷ xs) ≡ n + length b =
      omega (arith, length-append l (x ∷ xs), length-append d b, ap length e) in
    let result : length (l ++ x ∷ d) ≡ n = omega (arith, length-append l (x ∷ d)) in
    let there : (j : ℕ) → at rv (suc i + j) ≡ at ((d ++ b) ++ z) j = λ j.
      ap (λ t. at t (suc i + j)) (append_assoc l (x ∷ xs) z)
      ∙ ap (at (l ++ (x ∷ xs ++ z))) (omega arith)
      ∙ at-append l (x ∷ xs ++ z) (suc j)
      ∙ ap (λ t. at (t ++ z) j) e in
    let spaces : (j : ℕ) → j < length b → isspace (at rv (n + j)) ≡ true = λ j k.
      ap isspace (
        ap (at rv) (omega arith)
        ∙ there (length d + j)
        ∙ ap (λ t. at t (length d + j)) (append_assoc d b z)
        ∙ at-append d (b ++ z) j
        ∙ at_front b z j k)
      ∙ at_blank b j h k in
    ap (last_kept rv i) size
    ∙ passes rv i n (length b) (omega arith) spaces
    ∙ elim (List-cases d) [
      | inl q ↦
          let m : n ≡ suc i = omega (arith, ap length q) in
          ap (last_kept rv i) m ∙ stays_at rv i ∙ sym m
      | inr (y, ys, q) ↦
          let m : n ≡ suc (suc i + length ys) = omega (arith, ap length q) in
          let within : length ys < length d = omega (arith, ap length q) in
          let c : isspace (at rv (suc i + length ys)) ≡ false =
            ap isspace (
              there (length ys)
              ∙ ap (λ t. at t (length ys)) (append_assoc d b z)
              ∙ at_front d (b ++ z) (length ys) within
              ∙ ap (λ t. at t (length ys)) q)
            ∙ drop_blanks_last xs y ys q in
          ap (last_kept rv i) m ∙ stays_char rv i (suc i + length ys) c ∙ sym m
    ]
    ∙ sym result

free_of-append : (c : ℕ) (xs ys : List ℕ) → free_of c (xs ++ ys) ≡ (free_of c xs && free_of c ys)
free_of-append c [] ys = refl
free_of-append c (x ∷ xs) ys = ground (arith, free_of-append c xs ys)

before_nul-zeros : (l : List ℕ) (k : ℕ) → free_of 0 l ≡ true → before_nul (l ++ zeros k) ≡ l
before_nul-zeros l zero h = before_nul_whole l h ∙ append-nil l
  where
    before_nul_whole : (l : List ℕ) → free_of 0 l ≡ true → before_nul (l ++ []) ≡ l ++ []
    before_nul_whole [] h = refl
    before_nul_whole (x ∷ l) h = ground (arith, h, before_nul_whole l (ground (arith, h)))
before_nul-zeros l (suc k) h = before_nul-append l (zeros k) h

-- The text of the array is the editor's.
pub before_nul-cells :
    (e : Editor) (k : ℕ)
    → free_of 0 (e.left ++ e.right) ≡ true
    → before_nul (cells e k) ≡ e.left ++ e.right
before_nul-cells e k h =
    ap before_nul (sym (append_assoc e.left e.right (zeros k)))
    ∙ before_nul-zeros (e.left ++ e.right) k h

tidy_rest : (r : List ℕ) → (b : List ℕ) × (r ≡ tidy r ++ b)
tidy_rest [] = ([], refl)
tidy_rest (x ∷ xs) = let (b, e, h) = drop_blanks_rest xs in (b, ap (λ t. x ∷ t) e)

-- The 0 that ends the line is stored within the array, behind the editor's text.
pub cut_lem :
    (e : Editor) (k : ℕ)
    → 1 ≤ k
    → free_of 0 (e.left ++ e.right) ≡ true
    → (cut : List ℕ) × (put
          (cells e k)
          (last_kept (cells e k) (length e.left) (length (e.left ++ e.right)))
          0
        ≡ some cut)
      × (before_nul cut ≡ text e)
cut_lem e zero h f = ground (arith, h)
cut_lem e (suc k) h f =
    let l = e.left in
    let r = e.right in
    let (b, q) = tidy_rest r in
    let z = zeros (suc k) in
    let n = length (l ++ r) in
    let kept : last_kept (cells e (suc k)) (length l) n ≡ length (text e) =
      ap (λ t. last_kept t (length l) n) (sym (append_assoc l r z)) ∙ last_kept_lem l r z in
    let shape : cells e (suc k) ≡ text e ++ (b ++ z) =
      ap (λ t. l ++ (t ++ z)) q
      ∙ ap (λ t. l ++ t) (append_assoc (tidy r) b z)
      ∙ sym (append_assoc l (tidy r) (b ++ z)) in
    let clean : free_of 0 (text e) ≡ true = ground (
      arith,
      f,
      free_of-append 0 (text e) b,
      ap (free_of 0) (append_assoc l (tidy r) b),
      ap (λ t. free_of 0 (l ++ t)) q,
    ) in
    elim (List-cases b) [
      | inl w ↦ (
        text e ++ 0 ∷ zeros k,
        rw kept (
            ap (λ t. put t (length (text e)) 0) (shape ∙ ap (λ t. text e ++ (t ++ z)) w)
            ∙ put-append (text e) 0 0 (zeros k)),
        before_nul-append (text e) (zeros k) clean,
      )
      | inr (y, ys, w) ↦ (
        text e ++ 0 ∷ (ys ++ z),
        rw kept (
            ap (λ t. put t (length (text e)) 0) (shape ∙ ap (λ t. text e ++ (t ++ z)) w)
            ∙ put-append (text e) y 0 (ys ++ z)),
        before_nul-append (text e) (ys ++ z) clean,
      )
    ]
