-- ===== src/Scroller/Log.antt =====
-- cgdb/scroller.c, what the scroller promises: finished lines and the line under the editor, changed
-- character by character.
use cgdb.Base.{
  ℕ, suc, ◌+◌, ◌<◌, true, none, some, List, [], ◌∷◌, ◌++◌, ◌≡◌, refl, ◌∙◌, sym, subst, ap, arith,
  length, length-append, Bool-cases, inl, inr, List-cases, if◌then◌else◌, ◌==◌, ◌&&◌, Bool,
}
use cgdb.Scroller.{before_newline, after_newline, count, isspace}
use cgdb.Scroller.Editor.{Editor, edit, edit_all, text, tidy, drop_blanks}
use cgdb.Scroller.Parse.{clean, clean-append, Clean, edit-Clean}

pub record Log : Type 0 where
  pub lines : List (List ℕ)
  pub current : Editor

abbrev pub blank_line : Editor
blank_line = record { left = []; right = [] }

-- The line as it is shown.
abbrev pub settle : Editor → Editor
settle e = record e { right = tidy e.right }

abbrev pub end_line : Log → Log
end_line g = record { lines = g.lines ++ text g.current ∷ []; current = blank_line }

abbrev edit_line : ℕ → Log → Log
edit_line ch g = record g { current = edit ch g.current }

abbrev pub log_char : ℕ → Log → Log
log_char ch g = if ch == 10 then end_line g else edit_line ch g

abbrev pub log_all : List ℕ → Log → Log
log_all [] g = record g { current = settle g.current }
log_all (ch ∷ buf) g = log_all buf (log_char ch g)

-- The log up to the next newline.
pub log_all-none :
    (buf : List ℕ) (g : Log)
    → after_newline buf ≡ none
    → log_all buf g ≡ record g { current = settle (edit_all (before_newline buf) g.current) }
log_all-none [] g h = refl
log_all-none (ch ∷ buf) g h = elim (Bool-cases (ch == 10)) [
  | inl b ↦ ground (arith, b, h)
  | inr b ↦
      let rest : after_newline buf ≡ none = ground (arith, b, h) in
      rw b (log_all-none buf (edit_line ch g) rest)
]

pub log_all-some :
    (buf rest : List ℕ) (g : Log)
    → after_newline buf ≡ some rest
    → (log_all buf g
        ≡ log_all rest (record {
          lines = g.lines ++ text (edit_all (before_newline buf) g.current) ∷ [];
          current = blank_line;
        }))
      × (length rest < length buf)
log_all-some [] rest g h = ground arith
log_all-some (ch ∷ buf) rest g h = elim (Bool-cases (ch == 10)) [
  | inl b ↦
      let same : buf ≡ rest = ground (arith, b, h) in
      (rw (b, same) refl, omega (arith, ap length same))
  | inr b ↦
      let there : after_newline buf ≡ some rest = ground (arith, b, h) in
      let (p, q) = log_all-some buf rest (edit_line ch g) there in (rw b p, omega (arith, q))
]

abbrev pub all_clean : List (List ℕ) → Bool
all_clean [] = true
all_clean (l ∷ ls) = clean l && all_clean ls

pub all_clean_snoc :
    (ls : List (List ℕ)) (l : List ℕ) → all_clean (ls ++ l ∷ []) ≡ (all_clean ls && clean l)
all_clean_snoc [] l = ground arith
all_clean_snoc (x ∷ ls) l = ground (arith, all_clean_snoc ls l)

drop_blanks-clean : (xs : List ℕ) → clean xs ≡ true → clean (drop_blanks xs) ≡ true
drop_blanks-clean [] h = refl
drop_blanks-clean (x ∷ xs) h =
    let ih = drop_blanks-clean xs (ground (arith, h)) in
    elim (List-cases (drop_blanks xs)) [
      | inl n ↦ ground (arith, h, n)
      | inr (y, ys, n) ↦ ground (arith, h, n, ih)
    ]

drop_blanks_twice : (xs : List ℕ) → drop_blanks (drop_blanks xs) ≡ drop_blanks xs
drop_blanks_twice [] = refl
drop_blanks_twice (x ∷ xs) =
    let ih = drop_blanks_twice xs in
    elim (List-cases (drop_blanks xs)) [
      | inl n ↦ elim (Bool-cases (isspace x)) [
        | inl s ↦ rw (n, s) refl
        | inr s ↦ rw (n, s) (rw s refl)
      ]
      | inr (y, ys, n) ↦ rw n (rw (ap drop_blanks (sym n) ∙ ih ∙ n) refl)
    ]

tidy-clean : (r : List ℕ) → clean r ≡ true → clean (tidy r) ≡ true
tidy-clean [] h = refl
tidy-clean (x ∷ xs) h = ground (arith, h, drop_blanks-clean xs (ground (arith, h)))

pub text-clean : (e : Editor) → Clean e → clean (text e) ≡ true
text-clean e (h, g) = ground (arith, h, tidy-clean e.right g, clean-append e.left (tidy e.right))

-- All lines can be printed, and the line under the editor has lost its spaces.
abbrev pub Settled : Log → Type 0
Settled g = (all_clean g.lines ≡ true) × Clean g.current × (tidy g.current.right ≡ g.current.right)

tidy_twice : (r : List ℕ) → tidy (tidy r) ≡ tidy r
tidy_twice [] = refl
tidy_twice (x ∷ xs) = ap (λ t. x ∷ t) (drop_blanks_twice xs)

pub log_all-Settled :
    (buf : List ℕ) (g : Log) → all_clean g.lines ≡ true → Clean g.current → Settled (log_all buf g)
log_all-Settled [] g a (h, k) = (a, (h, tidy-clean g.current.right k), tidy_twice g.current.right)
log_all-Settled (ch ∷ buf) g a w = elim (Bool-cases (ch == 10)) [
  | inl b ↦
      let more : all_clean (g.lines ++ text g.current ∷ []) ≡ true =
        ground (arith, all_clean_snoc g.lines (text g.current), a, text-clean g.current w) in
      subst (λ t. Settled (log_all buf t)) {x = end_line g} {y = log_char ch g} (rw b refl)
        (log_all-Settled buf (end_line g) more (refl, refl))
  | inr b ↦
      subst (λ t. Settled (log_all buf t)) {x = edit_line ch g} {y = log_char ch g} (rw b refl)
        (log_all-Settled buf (edit_line ch g) a (edit-Clean ch g.current w))
]

-- A newline is what begins a line.
pub length-log_all :
    (buf : List ℕ) (g : Log) → length (log_all buf g).lines ≡ length g.lines + count buf 10
unfolding count
length-log_all [] g = omega arith
length-log_all (ch ∷ buf) g = elim (Bool-cases (ch == 10)) [
  | inl b ↦
      let next = end_line g in
      let step : log_char ch g ≡ next = rw b refl in
      let same = ap (λ t. length (log_all buf t).lines) step in
      let one : count (ch ∷ buf) 10 ≡ suc (count buf 10) = rw b refl in
      omega (arith, same, one, length-log_all buf next, length-append g.lines (text g.current ∷ []))
  | inr b ↦
      let next = edit_line ch g in
      let step : log_char ch g ≡ next = rw b refl in
      let same = ap (λ t. length (log_all buf t).lines) step in
      let more : count (ch ∷ buf) 10 ≡ count buf 10 = rw b refl in
      omega (arith, same, more, length-log_all buf next)
]
