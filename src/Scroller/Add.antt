-- ===== src/Scroller/Add.antt =====
-- cgdb/scroller.c: `scr_add` and the log that is changed character by character.
use cgdb.Base.{
  ℕ, zero, suc, ◌+◌, ◌-◌, ◌≤◌, ◌<◌, true, Option, none, some, List, [], ◌∷◌, ◌++◌, ◌≡◌, refl, ◌∙◌,
  ap, arith, ◌>>=◌, length, length-append, inl, inr, List-cases, Option-cases, ltb,
}
use cgdb.Scroller.{
  Scroller, scr_new, before_newline, after_newline, count, line_at, put_line, add_first, add_lines,
  scr_add, scr_end,
}
use cgdb.Scroller.Editor.{edit_all, text}
use cgdb.Scroller.Parse.{clean-append, parse-edit_all}
use cgdb.Scroller.Log.{
  Log, blank_line, log_all, log_all-none, log_all-some, Settled, log_all-Settled, length-log_all,
  all_clean, all_clean_snoc,
}

-- All lines, the last one under the editor.
abbrev pub page : Log → List (List ℕ)
page g = g.lines ++ (g.current.left ++ g.current.right) ∷ []

abbrev pub Shows : Scroller → Log → Type 0
Shows scr g = (scr.buffer ≡ page g) × (scr.pos ≡ length g.current.left)

add_lines_lem :
    (n : ℕ) (buf : List ℕ) (ls : List (List ℕ)) (p : ℕ)
    → length buf < n
    → let g = log_all buf (record { lines = ls; current = blank_line }) in
      add_lines n (some buf) ls p ≡ some (page g, length g.current.left)
unfolding add_lines
add_lines_lem zero buf ls p h = ground (arith, h)
add_lines_lem (suc n) buf ls p h =
    let g : Log = record { lines = ls; current = blank_line } in
    let e = edit_all (before_newline buf) blank_line in
    let typed = parse-edit_all blank_line (before_newline buf) (refl, refl) in
    elim (Option-cases (after_newline buf)) [
      | inl q ↦ rw (typed, q, log_all-none buf g q) refl
      | inr (rest, q) ↦
          let (same, shorter) = log_all-some buf rest g q in
          rw (typed, q, same)
            (add_lines_lem n rest (ls ++ text e ∷ []) (length e.left) (omega (arith, h, shorter)))
    ]

line_at_last : (ls : List (List ℕ)) (l : List ℕ) → line_at (ls ++ l ∷ []) (length ls) ≡ l
line_at_last [] l = refl
line_at_last (x ∷ ls) l = line_at_last ls l

put_line_last :
    (ls : List (List ℕ)) (l k : List ℕ) → put_line (ls ++ l ∷ []) (length ls) k ≡ ls ++ k ∷ []
put_line_last [] l k = refl
put_line_last (x ∷ ls) l k = ap (λ t. x ∷ t) (put_line_last ls l k)

add_first_lem :
    (scr : Scroller) (g : Log) (buf : List ℕ)
    → Shows scr g
    → Settled g
    → let e = edit_all (before_newline buf) g.current in
      add_first scr buf ≡ some (g.lines ++ text e ∷ [], length e.left)
unfolding add_first
add_first_lem scr g buf (b, p) (a, w, t) =
    let orig = g.current.left ++ g.current.right in
    let last : length (page g) - 1 ≡ length g.lines =
      omega (arith, length-append g.lines (orig ∷ [])) in
    let typed = parse-edit_all g.current (before_newline buf) w in
    elim (List-cases (before_newline buf)) [
      | inl n ↦ rw (n, b, p, t) refl
      | inr (x, xs, n) ↦
          let some_left : ltb 0 (length (before_newline buf)) ≡ true = ground (arith, n) in
          rw (some_left, b, p, last, line_at_last g.lines orig, typed)
            (ap (λ z. some (z, length (edit_all (before_newline buf) g.current).left))
              (put_line_last g.lines orig (text (edit_all (before_newline buf) g.current))))
    ]

two_parts :
    (width : ℕ) (scr : Scroller) (buf : List ℕ) (first lines : List (List ℕ)) (start p : ℕ)
    → add_first scr buf ≡ some (first, start)
    → add_lines (length buf) (after_newline buf) first start ≡ some (lines, p)
    → scr_add width scr buf ≡ some (scr_end width (record scr { buffer = lines; pos = p }))
unfolding scr_add
two_parts width scr buf first lines start p h k = rw (h, k) refl

add_lines-none : (n : ℕ) (ls : List (List ℕ)) (p : ℕ) → add_lines n none ls p ≡ some (ls, p)
unfolding add_lines
add_lines-none zero ls p = refl
add_lines-none (suc n) ls p = refl

scr_add_lem :
    (width : ℕ) (scr : Scroller) (g : Log) (buf : List ℕ)
    → Shows scr g
    → Settled g
    → let k = log_all buf g in
      scr_add width scr buf
      ≡ some (scr_end width (record scr { buffer = page k; pos = length k.current.left }))
scr_add_lem width scr g buf s w =
    let e = edit_all (before_newline buf) g.current in
    let k = log_all buf g in
    let ls = g.lines ++ text e ∷ [] in
    two_parts width scr buf ls (page k) (length e.left) (length k.current.left)
      (add_first_lem scr g buf s w)
      (elim (Option-cases (after_newline buf)) [
        | inl q ↦ rw (q, add_lines-none (length buf) ls (length e.left), log_all-none buf g q) refl
        | inr (rest, q) ↦
            let (same, shorter) = log_all-some buf rest g q in
            rw (q, same) (add_lines_lem (length buf) rest ls (length e.left) shorter)
      ])

-- On a scroller that shows a log, `scr_add` finds room for every character and ends, and the scroller
-- then shows the log that the text makes of it, character by character: a newline ends the line, any
-- other character is given to the editor of the last line. What is shown is the last line.
pub scr_add-Shows :
    (width : ℕ) (scr : Scroller) (g : Log) (buf : List ℕ)
    → Shows scr g
    → Settled g
    → (next : Scroller) × (scr_add width scr buf ≡ some next)
      × Shows next (log_all buf g)
      × Settled (log_all buf g)
      × (next.r ≡ length (log_all buf g).lines)
scr_add-Shows width scr g buf s w =
    let k = log_all buf g in
    let stop = record scr { buffer = page k; pos = length k.current.left } in
    let at_end : (scr_end width stop).r ≡ length k.lines =
      unfold scr_end in
      omega (arith, length-append k.lines ((k.current.left ++ k.current.right) ∷ [])) in
    let shown : Shows (scr_end width stop) k = unfold scr_end in (refl, refl) in
    (
      scr_end width stop,
      scr_add_lem width scr g buf s w,
      shown,
      log_all-Settled buf g w.0 w.1,
      at_end,
    )

-- The output of a program, as it arrives.
abbrev pub add_chunks : ℕ → Scroller → List (List ℕ) → Option Scroller
add_chunks width scr [] = some scr
add_chunks width scr (buf ∷ chunks) = do next ← scr_add width scr buf; add_chunks width next chunks

abbrev pub newlines : List (List ℕ) → ℕ
newlines [] = 0
newlines (buf ∷ chunks) = count buf 10 + newlines chunks

-- A scroller with at least one line, all printable, and the cursor within the last one.
abbrev pub WellFormed : Scroller → Type 0
WellFormed scr =
    (1 ≤ length scr.buffer)
    × (all_clean scr.buffer ≡ true)
    × (scr.pos ≤ length (line_at scr.buffer (length scr.buffer - 1)))

shown-WellFormed : (scr : Scroller) (g : Log) → Shows scr g → Settled g → WellFormed scr
shown-WellFormed scr g (b, p) (a, (h, k), t) =
    let orig = g.current.left ++ g.current.right in
    let size : length scr.buffer ≡ suc (length g.lines) =
      omega (arith, ap (λ z. length z) b, length-append g.lines (orig ∷ [])) in
    let last : length scr.buffer - 1 ≡ length g.lines = omega (arith, size) in
    let there : line_at scr.buffer (length scr.buffer - 1) ≡ orig =
      ap (line_at scr.buffer) last
      ∙ ap (λ z. line_at z (length g.lines)) b
      ∙ line_at_last g.lines orig in
    (
      omega (arith, size),
      ap all_clean b
          ∙ ground (
            arith,
            all_clean_snoc g.lines orig,
            a,
            h,
            k,
            clean-append g.current.left g.current.right,
          ),
      omega (arith, p, ap (λ z. length z) there, length-append g.current.left g.current.right),
    )

chunks_lem :
    (width : ℕ) (chunks : List (List ℕ)) (scr : Scroller) (g : Log)
    → Shows scr g
    → Settled g
    → (last : Scroller) × (add_chunks width scr chunks ≡ some last)
      × WellFormed last
      × (length last.buffer ≡ suc (length g.lines + newlines chunks))
chunks_lem width [] scr g s w =
    let size = length-append g.lines ((g.current.left ++ g.current.right) ∷ []) in
    (scr, refl, shown-WellFormed scr g s w, omega (arith, ap (λ z. length z) s.0, size))
chunks_lem width (buf ∷ chunks) scr g s w =
    let (next, e, s2, w2, h) = scr_add-Shows width scr g buf s w in
    let (last, e2, i, n) = chunks_lem width chunks next (log_all buf g) s2 w2 in
    (last, rw e e2, i, omega (arith, n, length-log_all buf g))

-- Whatever text arrives, in whatever chunks, a new scroller takes all of it. It then has one line more
-- than newlines arrived, its lines are printable, and its cursor is within the last line.
pub add_chunks-WellFormed :
    (width : ℕ) (chunks : List (List ℕ))
    → (last : Scroller) × (add_chunks width scr_new chunks ≡ some last)
      × WellFormed last
      × (length last.buffer ≡ suc (newlines chunks))
add_chunks-WellFormed width chunks =
    let start : Log = record { lines = []; current = blank_line } in
    let (last, e, i, n) =
      chunks_lem width chunks scr_new start (refl, refl) (refl, (refl, refl), refl) in
    (last, e, i, omega (arith, n))
