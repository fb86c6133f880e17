-- ===== src/Sources/Marks.antt =====
-- cgdb/sources.c: the breakpoints that are shown beside the lines of a file.
use cgdb.Base.{
  ℕ, zero, suc, ◌<◌, Bool, true, false, ◌&&◌, List, [], ◌∷◌, length, ltb, ◌==◌, if◌then◌else◌,
  Option, none, some, Option-cases, eq_list, eq_list→≡, eq_list_refl, ℤ, pos, negsuc, ◌≡◌, refl,
  ◌∙◌, sym, ap, arith, inl, inr, Bool-cases,
}
use cgdb.Annotate.Context.{Breakpoint}
use cgdb.Sources.{
  load_file, release_file_memory, fill, Files, Source, Sviewer, find_first, change_first, same_path,
  has_lpath, zeros, index, put_mark, mark, buffered, unmarked, source_enable_break,
  source_disable_break, source_clear_breaks, show_break, show_breaks, update_breakpoints,
  get_relative_node,
}
use cgdb.Sources.Found.{find_first-map, find_first-change_first, find_first_other}

abbrev pub nth : List ℕ → ℕ → ℕ
nth [] i = 0
nth (m ∷ ms) zero = m
nth (m ∷ ms) (suc i) = nth ms i

-- The line is that with the index.
abbrev pub is_line : ℤ → ℕ → Bool
is_line (pos (suc j)) i = j == i
is_line _ i = false

-- What the last breakpoint of a line in the file says: 1 for an enabled one, 2 for another, `v` when
-- there is none.
abbrev pub last_mark : List ℕ → ℕ → List Breakpoint → ℕ → ℕ
last_mark file i [] v = v
last_mark file i (tb ∷ tbs) v =
    last_mark file i tbs
      (if eq_list tb.file file && is_line tb.line i then (if tb.enabled then 1 else 2) else v)

pub length-put_mark : (o : Option ℕ) (v : ℕ) (ms : List ℕ) → length (put_mark o v ms) ≡ length ms
length-put_mark none v ms = refl
length-put_mark (some i) v [] = refl
length-put_mark (some zero) v (m ∷ ms) = refl
length-put_mark (some (suc i)) v (m ∷ ms) = ap suc (length-put_mark (some i) v ms)

nth-put_mark_at :
    (j v : ℕ) (ms : List ℕ) (i : ℕ)
    → i < length ms
    → nth (put_mark (some j) v ms) i ≡ (if j == i then v else nth ms i)
nth-put_mark_at j v [] i h = absurd (omega (arith, h))
nth-put_mark_at zero v (m ∷ ms) zero h = refl
nth-put_mark_at zero v (m ∷ ms) (suc i) h = ground arith
nth-put_mark_at (suc j) v (m ∷ ms) zero h = ground arith
nth-put_mark_at (suc j) v (m ∷ ms) (suc i) h =
    nth-put_mark_at j v ms i (omega (arith, h)) ∙ ground arith

nth-put_mark :
    (line : ℤ) (v : ℕ) (ms : List ℕ) (i : ℕ)
    → i < length ms
    → nth (put_mark (index line (length ms)) v ms) i ≡ (if is_line line i then v else nth ms i)
nth-put_mark (negsuc j) v ms i h = refl
nth-put_mark (pos zero) v ms i h = refl
nth-put_mark (pos (suc j)) v ms i h = elim (Bool-cases (ltb j (length ms))) [
  | inl k ↦ rw k (nth-put_mark_at j v ms i h)
  | inr k ↦ let far : (j == i) ≡ false = ground (arith, k, h) in rw (k, far) refl
]

pub length-zeros : {A : Type 0} (ms : List A) → length (zeros ms) ≡ length ms
length-zeros [] = refl
length-zeros (m ∷ ms) = ap suc (length-zeros ms)

nth-zeros : (ms : List ℕ) (i : ℕ) → nth (zeros ms) i ≡ 0
nth-zeros [] i = refl
nth-zeros (m ∷ ms) zero = refl
nth-zeros (m ∷ ms) (suc i) = nth-zeros ms i

-- The first node with this relative path is loaded, has a mark for each line, and `v` at the index `i`.
abbrev Marked : List ℕ → List (List ℕ) → ℕ → ℕ → Sviewer → Type 0
Marked file lines i v s =
    (n : Source) × (get_relative_node s file ≡ some n)
    × (n.tlines ≡ some lines)
    × (n.buf_length ≡ length n.breakpts)
    × (i < n.buf_length)
    × (nth n.breakpts i ≡ v)

loaded-lpath :
    (files : Files) (o : Option (List (List ℕ))) (n : Source)
    → (buffered files o n).1.lpath ≡ n.lpath
unfolding load_file release_file_memory fill
loaded-lpath files (some lines) n = refl
loaded-lpath files none n = elim (Option-cases (files.modified n.path)) [
  | inl k ↦ rw k refl
  | inr (time, k) ↦ elim (Option-cases (files.content n.path)) [
    | inl j ↦ rw (k, j) refl
    | inr (text, j) ↦ rw (k, j) refl
  ]
]

mark-lpath : (files : Files) (line : ℤ) (v : ℕ) (n : Source) → (mark files line v n).lpath ≡ n.lpath
unfolding mark
mark-lpath files line v n = elim (Bool-cases ((buffered files n.tlines n).0 == 0)) [
  | inl k ↦ rw k (loaded-lpath files n.tlines n)
  | inr k ↦ rw k (loaded-lpath files n.tlines n)
]

mark-loaded :
    (files : Files) (line : ℤ) (v : ℕ) (n : Source) (lines : List (List ℕ))
    → n.tlines ≡ some lines
    → mark files line v n ≡ record n { breakpts = put_mark (index line n.buf_length) v n.breakpts }
unfolding mark
mark-loaded files line v n lines h = rw h refl

two_paths :
    (o : Option (List ℕ)) (path file : List ℕ)
    → eq_list path file ≡ false
    → same_path o path ≡ true
    → same_path o file ≡ false
two_paths none path file h k = refl
two_paths (some q) path file h k = elim (Bool-cases (eq_list file q)) [
  | inl j ↦
      let same : path ≡ file = eq_list→≡ path q k ∙ sym (eq_list→≡ file q j) in
      absurd (cc (h, eq_list_refl file, ap (λ z. eq_list z file) same))
  | inr j ↦ j
]

-- One breakpoint.
change_first_lem :
    (files : Files) (path file : List ℕ) (lines : List (List ℕ)) (i v w : ℕ) (line : ℤ)
    (s : Sviewer)
    → Marked file lines i v s
    → Marked file lines i
        (if eq_list path file && is_line line i then w else v)
        (record s { list_head = change_first (has_lpath path) (mark files line w) s.list_head })
change_first_lem files path file lines i v w line s (n, f, l, b, h, e) =
    let keeps : (p : List ℕ) (m : Source) → has_lpath p (mark files line w m) ≡ has_lpath p m =
      λ p m. ap (λ q. same_path q p) (mark-lpath files line w m) in
    elim (Bool-cases (eq_list path file)) [
      | inl k ↦
          let same : path ≡ file = eq_list→≡ path file k in
          let n1 : Source = record n {
            breakpts = put_mark (index line n.buf_length) w n.breakpts;
          } in
          let found : find_first (has_lpath file)
                (change_first (has_lpath path) (mark files line w) s.list_head)
              ≡ some n1 =
            ap
              (λ p.
                find_first (has_lpath p)
                  (change_first (has_lpath path) (mark files line w) s.list_head))
              (sym same)
            ∙ find_first-change_first (has_lpath path) (mark files line w) s.list_head n
                (keeps path) (ap (λ p. find_first (has_lpath p) s.list_head) same ∙ f)
            ∙ ap some (mark-loaded files line w n lines l) in
          let inside : i < length n.breakpts = omega (arith, b, h) in
          let marked : nth n1.breakpts i ≡ (if is_line line i then w else v) =
            ap (λ z. nth (put_mark (index line z) w n.breakpts) i) b
            ∙ nth-put_mark line w n.breakpts i inside
            ∙ ap (λ z. if is_line line i then w else z) e in
          rw k (
            n1,
            found,
            l,
            b ∙ sym (length-put_mark (index line n.buf_length) w n.breakpts),
            h,
            marked,
          )
      | inr k ↦ rw k (
        n,
        find_first_other (has_lpath file) (has_lpath path) (mark files line w) s.list_head
              (λ m t. two_paths m.lpath path file k t) (keeps file)
            ∙ f,
        l,
        b,
        h,
        e,
      )
    ]

show_break_lem :
    (files : Files) (file : List ℕ) (lines : List (List ℕ)) (i v : ℕ) (tb : Breakpoint)
    (s : Sviewer)
    → Marked file lines i v s
    → Marked file lines i
        (if eq_list tb.file file && is_line tb.line i then (if tb.enabled then 1 else 2) else v)
        (show_break files s tb)
unfolding show_break source_enable_break source_disable_break
show_break_lem files file lines i v tb s w = elim (Bool-cases tb.enabled) [
  | inl k ↦ rw k (change_first_lem files tb.file file lines i v 1 tb.line s w)
  | inr k ↦ rw k (change_first_lem files tb.file file lines i v 2 tb.line s w)
]

show_breaks_lem :
    (files : Files) (file : List ℕ) (lines : List (List ℕ)) (i v : ℕ) (tbs : List Breakpoint)
    (s : Sviewer)
    → Marked file lines i v s
    → Marked file lines i (last_mark file i tbs v) (show_breaks files s tbs)
unfolding show_breaks
show_breaks_lem files file lines i v [] s w = w
show_breaks_lem files file lines i v (tb ∷ tbs) s w =
    show_breaks_lem files file lines i
      (if eq_list tb.file file && is_line tb.line i then (if tb.enabled then 1 else 2) else v) tbs
      (show_break files s tb) (show_break_lem files file lines i v tb s w)

-- After gdb's breakpoints are shown, a line of a file that is loaded is marked as the last breakpoint at
-- that line of that file says, 1 for an enabled one and 2 for a disabled one, and not at all when there
-- is none, whatever was marked before; the file is the first of the list with the relative path, and its
-- text is as before.
pub update_breakpoints_lem :
    (files : Files) (s : Sviewer) (tbs : List Breakpoint) (n : Source) (lines : List (List ℕ))
    (i : ℕ) (file : List ℕ)
    → get_relative_node s file ≡ some n
    → n.tlines ≡ some lines
    → n.buf_length ≡ length n.breakpts
    → i < n.buf_length
    → (n' : Source) × (get_relative_node (update_breakpoints files s tbs) file ≡ some n')
      × (n'.tlines ≡ some lines)
      × (n'.buf_length ≡ length n'.breakpts)
      × (i < n'.buf_length)
      × (nth n'.breakpts i ≡ last_mark file i tbs 0)
unfolding update_breakpoints source_clear_breaks
update_breakpoints_lem files s tbs n lines i file f l b h =
    let cleared : get_relative_node (source_clear_breaks s) file ≡ some (unmarked n) =
      find_first-map (has_lpath file) unmarked s.list_head n (λ m. refl) f in
    show_breaks_lem files file lines i 0 tbs (source_clear_breaks s)
      (unmarked n, cleared, l, b ∙ sym (length-zeros n.breakpts), h, nth-zeros n.breakpts i)
