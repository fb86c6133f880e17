-- ===== src/Scroller/Parse.antt =====
-- cgdb/scroller.c: `parse` and the editor of one line.
use cgdb.Base.{
  ℕ, zero, suc, ◌+◌, ◌-◌, ◌*◌, ◌%◌, ◌≤◌, Bool, true, ◌&&◌, List, [], ◌∷◌, ◌++◌, ◌≡◌, refl, arith,
  length, append_assoc, some, Bool-cases, inl, inr, free_of, ◌==◌, ◌||◌, delchar,
}
use cgdb.Scroller.{zeros, count, expand_all, isprint, parse}
use cgdb.Scroller.Editor.{
  Editor, edit, edit_all, text, write, write_spaces, step_back, last_char, behind,
}
use cgdb.Scroller.Array.{cells, Gives, cost, expand_lem}
use cgdb.Scroller.Trim.{before_nul-cells, cut_lem}

-- All characters can be printed.
abbrev pub clean : List ℕ → Bool
clean [] = true
clean (x ∷ xs) = isprint x && clean xs

pub clean-append : (xs ys : List ℕ) → clean (xs ++ ys) ≡ (clean xs && clean ys)
clean-append [] ys = refl
clean-append (x ∷ xs) ys = ground (arith, clean-append xs ys)

clean-free_of : (xs : List ℕ) → clean xs ≡ true → free_of 0 xs ≡ true
clean-free_of [] h = refl
clean-free_of (x ∷ xs) h = ground (arith, h, clean-free_of xs (ground (arith, h)))

abbrev pub Clean : Editor → Type 0
Clean e = (clean e.left ≡ true) × (clean e.right ≡ true)

write-Clean : (ch : ℕ) (e : Editor) → isprint ch ≡ true → Clean e → Clean (write ch e)
write-Clean ch e i (h, g) = (ground (arith, clean-append e.left (ch ∷ []), h, i), tail e.right g)
  where
    tail : (r : List ℕ) → clean r ≡ true → clean (behind r) ≡ true
    tail [] k = k
    tail (x ∷ r) k = ground (arith, k)

write_spaces-Clean : (n : ℕ) (e : Editor) → Clean e → Clean (write_spaces n e)
write_spaces-Clean zero e h = h
write_spaces-Clean (suc n) e h =
    write_spaces-Clean n (write 32 e) (write-Clean 32 e (ground arith) h)

step_back-Clean : (e : Editor) → Clean e → Clean (step_back e)
step_back-Clean e (h, g) =
    (before e.left h, ground (arith, g, last e.left h, clean-append (last_char e.left) e.right))
  where
    before : (l : List ℕ) → clean l ≡ true → clean (delchar l) ≡ true
    before [] k = refl
    before (x ∷ []) k = refl
    before (x ∷ y ∷ l) k = ground (arith, k, before (y ∷ l) (ground (arith, k)))

    last : (l : List ℕ) → clean l ≡ true → clean (last_char l) ≡ true
    last [] k = k
    last (x ∷ []) k = k
    last (x ∷ y ∷ l) k = last (y ∷ l) (ground (arith, k))

pub edit-Clean : (ch : ℕ) (e : Editor) → Clean e → Clean (edit ch e)
edit-Clean ch e (h, g) = elim (Bool-cases (ch == 8 || ch == 127)) [
  | inl b ↦ rw b (step_back-Clean e (h, g))
  | inr b ↦ elim (Bool-cases (ch == 9)) [
    | inl t ↦ rw (b, t) (write_spaces-Clean (8 - length e.left % 8) e (h, g))
    | inr t ↦ elim (Bool-cases (ch == 13)) [
      | inl c ↦ rw (b, t, c) (refl, ground (arith, h, g, clean-append e.left e.right))
      | inr c ↦ elim (Bool-cases (isprint ch)) [
        | inl i ↦ rw (b, t, c, i) (write-Clean ch e i (h, g))
        | inr i ↦ rw (b, t, c, i) (h, g)
      ]
    ]
  ]
]

pub edit_all-Clean : (buf : List ℕ) (e : Editor) → Clean e → Clean (edit_all buf e)
edit_all-Clean [] e h = h
edit_all-Clean (ch ∷ buf) e h = edit_all-Clean buf (edit ch e) (edit-Clean ch e h)

-- The cells that a text may need.
abbrev costs : List ℕ → ℕ
costs [] = 0
costs (ch ∷ buf) = cost ch + costs buf

costs_lem : (buf : List ℕ) → costs buf ≡ length buf + 7 * count buf 9
unfolding count
costs_lem [] = refl
costs_lem (ch ∷ buf) = ground (arith, costs_lem buf)

expand_all_lem :
    (buf : List ℕ) (e : Editor) (k : ℕ)
    → costs buf ≤ k
    → Gives (expand_all buf (cells e k) (length e.left)) (edit_all buf e) k (costs buf)
unfolding expand_all
expand_all_lem [] e k h = (k, refl, omega arith)
expand_all_lem (ch ∷ buf) e k h =
    let (j, p, q) = expand_lem ch e k (omega (arith, h)) in
    let (j2, p2, q2) = expand_all_lem buf (edit ch e) j (omega (arith, h, q)) in
    (j2, rw p p2, omega (arith, q, q2))

-- On a line of printable characters whose first part ends at `current.pos`, and on any text, `parse`
-- stores nothing outside the memory that it asks for, a tab's loop included, and returns the text of
-- the editor of one line after the text is typed, with the cursor as the new `current.pos`.
pub parse-edit_all :
    (e : Editor) (buf : List ℕ)
    → Clean e
    → parse (length e.left) (e.left ++ e.right) buf
      ≡ some (text (edit_all buf e), length (edit_all buf e).left)
unfolding parse
parse-edit_all e buf h =
    let orig = e.left ++ e.right in
    let f = edit_all buf e in
    let room : length orig + length buf + 7 * count buf 9 - length orig + 1 ≡ costs buf + 1 =
      omega (arith, costs_lem buf) in
    let start : orig ++ zeros (costs buf + 1) ≡ cells e (costs buf + 1) =
      append_assoc e.left e.right (zeros (costs buf + 1)) in
    let (k, p, q) = expand_all_lem buf e (costs buf + 1) (omega arith) in
    let (h1, h2) = edit_all-Clean buf e h in
    let whole : free_of 0 (f.left ++ f.right) ≡ true =
      clean-free_of (f.left ++ f.right) (ground (arith, clean-append f.left f.right, h1, h2)) in
    let (cut, p2, q2) = cut_lem f k (omega (arith, q)) whole in
    rw (room, start, p, before_nul-cells f k whole, p2, q2) refl
