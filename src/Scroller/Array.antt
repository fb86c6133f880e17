-- ===== src/Scroller/Array.antt =====
-- cgdb/scroller.c: the array of `parse` while it holds the text of an editor, and zeros behind.
use cgdb.Base.{
  ◌-◌, ℕ, zero, suc, ◌+◌, ◌%◌, ◌≤◌, false, List, [], ◌∷◌, ◌++◌, ◌≡◌, refl, ◌∙◌, sym, ap, arith,
  length, length-append, append_assoc, some, Bool-cases, inl, inr, ◌==◌, List-cases, ◌||◌,
  if◌then◌else◌, delchar, ltb, Option,
}
use cgdb.Scroller.{put, zeros, fill_tab, expand_char, isprint}
use cgdb.Scroller.Editor.{Editor, write, write_spaces, step_back, line_start, edit, last_char}

abbrev pub cells : Editor → ℕ → List ℕ
cells e k = e.left ++ (e.right ++ zeros k)

pub put-append :
    (l : List ℕ) (y x : ℕ) (rest : List ℕ) → put (l ++ y ∷ rest) (length l) x ≡ some (l ++ x ∷ rest)
put-append [] y x rest = refl
put-append (z ∷ l) y x rest = rw (put-append l y x rest) refl

-- A result of the array code that the editor accounts for, at a cost of at most `n` cells.
abbrev pub Gives : Option (List ℕ × ℕ) → Editor → ℕ → ℕ → Type 0
Gives o e k n = (j : ℕ) × (o ≡ some (cells e j, length e.left)) × (k ≤ j + n)

put-write :
    (ch : ℕ) (e : Editor) (k : ℕ)
    → 1 ≤ k
    → (j : ℕ) × (put (cells e k) (length e.left) ch ≡ some (cells (write ch e) j)) × (k ≤ j + 1)
put-write ch e zero h = ground (arith, h)
put-write ch e (suc k) h = elim (List-cases e.right) [
  | inl n ↦ (
    k,
    rw n (
        put-append e.left 0 ch (zeros k) ∙ ap some (sym (append_assoc e.left (ch ∷ []) (zeros k)))),
    omega arith,
  )
  | inr (x, xs, n) ↦ (
    suc k,
    rw n (
        put-append e.left x ch (xs ++ zeros (suc k))
        ∙ ap some (sym (append_assoc e.left (ch ∷ []) (xs ++ zeros (suc k))))),
    omega arith,
  )
]

length-write : (ch : ℕ) (e : Editor) → length (write ch e).left ≡ suc (length e.left)
length-write ch e = omega (arith, length-append e.left (ch ∷ []))

fill_tab_lem :
    (n m : ℕ) (e : Editor) (k : ℕ)
    → 1 ≤ m
    → m ≤ n
    → m ≤ 8
    → m ≤ k
    → (length e.left + m) % 8 ≡ 0
    → Gives (fill_tab n (cells e k) (length e.left)) (write_spaces m e) k m
unfolding fill_tab
fill_tab_lem zero m e k a b c d f = ground arith
fill_tab_lem (suc n) zero e k a b c d f = ground arith
fill_tab_lem (suc n) (suc zero) e k a b c d f =
    let (j, p, q) = put-write 32 e k (omega (arith, d)) in
    let z : suc (length e.left) % 8 ≡ 0 = omega (arith, f) in
    let l = length-write 32 e in (j, rw (p, z, l) refl, q)
fill_tab_lem (suc n) (suc (suc m)) e k a b c d f =
    let (j, p, q) = put-write 32 e k (omega (arith, d)) in
    let l = length-write 32 e in
    let z : (suc (length e.left) % 8 == 0) ≡ false = ground (arith, f, c) in
    let (j2, p2, q2) =
      fill_tab_lem n (suc m) (write 32 e) j (omega arith) (omega (arith, b)) (omega (arith, c))
        (omega (arith, d, q)) (omega (arith, f, l)) in
    (j2, rw (p, z) (rw (sym l) p2), omega (arith, q, q2))

-- The cells that a character may need.
abbrev pub cost : ℕ → ℕ
cost ch = if ch == 9 then 8 else 1

step_back_text : (l r : List ℕ) → delchar l ++ (last_char l ++ r) ≡ l ++ r
step_back_text [] r = refl
step_back_text (x ∷ []) r = refl
step_back_text (x ∷ y ∷ l) r = ap (λ t. x ∷ t) (step_back_text (y ∷ l) r)

length-delchar :
    (l : List ℕ) → length (delchar l) ≡ (if ltb 0 (length l) then length l - 1 else length l)
length-delchar [] = refl
length-delchar (x ∷ []) = refl
length-delchar (x ∷ y ∷ l) = ground (arith, length-delchar (y ∷ l))

pub expand_lem :
    (ch : ℕ) (e : Editor) (k : ℕ)
    → cost ch ≤ k
    → Gives (expand_char ch (cells e k) (length e.left)) (edit ch e) k (cost ch)
unfolding expand_char
expand_lem ch e k h = elim (Bool-cases (ch == 8 || ch == 127)) [
  | inl b ↦
      let t = append_assoc (last_char e.left) e.right (zeros k) in
      let whole : cells (step_back e) k ≡ cells e k =
        ap (λ x. delchar e.left ++ x) t ∙ step_back_text e.left (e.right ++ zeros k) in
      (k, rw (b, whole, length-delchar e.left) refl, omega arith)
  | inr b ↦ elim (Bool-cases (ch == 9)) [
    | inl t ↦
        let m = 8 - length e.left % 8 in
        let (j, p, q) =
          fill_tab_lem 8 m e k (omega arith) (omega arith) (omega arith) (ground (arith, h, t))
            (omega arith) in
        (j, rw (b, t) p, ground (arith, q, t))
    | inr t ↦ elim (Bool-cases (ch == 13)) [
      | inl c ↦
          let whole : cells (line_start e) k ≡ cells e k = append_assoc e.left e.right (zeros k) in
          (k, rw (b, t, c, whole) refl, omega arith)
      | inr c ↦ elim (Bool-cases (isprint ch)) [
        | inl i ↦
            let (j, p, q) = put-write ch e k (ground (arith, h, t)) in
            (j, rw (b, t, c, i, p, length-write ch e) refl, ground (arith, q, t))
        | inr i ↦ (k, rw (b, t, c, i) refl, omega arith)
      ]
    ]
  ]
]
