-- ===== src/Sources/Run.antt =====
-- cgdb/sources.c: what holds of the list of files, whatever is done.
use cgdb.Base.{
  ℕ, Bool, ◌&&◌, ◌||◌, List, [], ◌∷◌, ltb, ◌==◌, Option, none, some, ℤ, negsuc, map, ◌≡◌, refl, inl,
  inr, Bool-cases, ==_refl, subst,
}
use cgdb.Annotate.Context.{Breakpoint}
use cgdb.Sources.{
  Files, Source, Sviewer, find_first, change_first, has_path, has_lpath, is_at, zeros, unmarked,
  load_file, release_file_memory, mark, ◌+ℤ◌, load_and_execute, select, source_add,
  source_set_relative_path, source_vscroll, source_set_sel_line, source_set_exec_line,
  source_enable_break, source_disable_break, source_clear_breaks, show_break, show_breaks,
  update_breakpoints, reload_newer, reload_found, source_reload, source_new, open_path, open_stat,
  reload_stat, new_source, open_cur, shown,
}
use cgdb.Sources.Found.{find_first-map}
use cgdb.Sources.Marks.{length-zeros}
use cgdb.Sources.Keep.{
  Shows, IsValid, Fine, changed, all_mapped, load_Fine, mark-Fine, load_and_execute-Fine,
  same_count,
}

-- What cgdb does to the list.
pub data Op : Type 0 where
  added : List ℕ → Op
  related : List ℕ → List ℕ → Op
  scrolled selected : ℤ → Op
  executed : Option (List ℕ) → ℤ → Op
  marked : List Breakpoint → Op
  reloaded : Bool → List ℕ → Bool → Op

abbrev pub step : Files → Sviewer → Op → Sviewer
step files s (added path) = source_add s path
step files s (related path lpath) = source_set_relative_path s path lpath
step files s (scrolled offset) = source_vscroll s offset
step files s (selected line) = source_set_sel_line s line
step files s (executed path line) = (source_set_exec_line files s path line).1
step files s (marked tbs) = update_breakpoints files s tbs
step files s (reloaded auto path force) = (source_reload files auto s path force).1

-- Each step sees the files as they are then.
abbrev pub run : Sviewer → List (Files × Op) → Sviewer
run s [] = s
run s ((files, op) ∷ ops) = run (step files s op) ops

kept_Shows : (o : Option ℕ) (m : Source) (ns : List Source) → Shows o ns → Shows o (m ∷ ns)
kept_Shows none m ns w = tt
kept_Shows (some a) m ns (n, h) = elim (Bool-cases (m.address == a)) [
  | inl t ↦ rw t (m, refl)
  | inr t ↦ rw t (n, h)
]

-- The address of a node leads to a node.
abbrev ShowsAt : List Source → Option Source → Type 0
ShowsAt ns none = Unit
ShowsAt ns (some n) = Shows (some n.address) ns

found_Shows :
    (test : Source → Bool) (ns : List Source) (n : Source)
    → find_first test ns ≡ some n
    → Shows (some n.address) ns
found_Shows test [] n h = absurd (cc h)
found_Shows test (m ∷ ns) n h = elim (Bool-cases (test m)) [
  | inl t ↦
      subst (ShowsAt (m ∷ ns)) {x = some m} {y = some n} (rw t at h)
        (m, rw (==_refl m.address) refl)
  | inr t ↦ kept_Shows (some n.address) m ns (found_Shows test ns n (rw t at h))
]

add_IsValid : (s : Sviewer) (path : List ℕ) → IsValid s → IsValid (source_add s path)
unfolding source_add
add_IsValid s path (w, v) = (((refl, refl), w), kept_Shows s.cur _ s.list_head v)

find_Shows :
    (test : Source → Bool) (ns : List Source) (o : Option Source)
    → find_first test ns ≡ o
    → ShowsAt ns o
find_Shows test ns none h = tt
find_Shows test ns (some n) h = found_Shows test ns n h

shown-IsValid :
    (s : Sviewer) (path : List ℕ) (o : Option Source)
    → ShowsAt s.list_head o
    → IsValid s
    → IsValid (shown s path o)
unfolding source_add
shown-IsValid s path (some n) h (w, v) = (w, h)
shown-IsValid s path none h (w, v) =
    (((refl, refl), w), (new_source s.fresh path, rw (==_refl s.fresh) refl))

open_cur-IsValid : (s : Sviewer) (o : Option ℕ) → IsValid s → IsValid (open_cur s o).1
open_cur-IsValid s none w = w
open_cur-IsValid s (some a) w = w

open_stat-IsValid :
    (s : Sviewer) (path : List ℕ) (o : Option ℕ) → IsValid s → IsValid (open_stat s path o).1
unfolding open_stat
open_stat-IsValid s path none w = w
open_stat-IsValid s path (some time) w =
    shown-IsValid s path (find_first (has_path path) s.list_head)
      (find_Shows (has_path path) s.list_head (find_first (has_path path) s.list_head) refl) w

open_IsValid :
    (files : Files) (s : Sviewer) (path : Option (List ℕ))
    → IsValid s
    → IsValid (open_path files s path).1
unfolding open_path
open_IsValid files s none w = open_cur-IsValid s s.cur w
open_IsValid files s (some path) w = open_stat-IsValid s path (files.modified path) w

exec_IsValid :
    (files : Files) (s : Sviewer) (path : Option (List ℕ)) (line : ℤ)
    → IsValid s
    → IsValid (source_set_exec_line files s path line).1
unfolding source_set_exec_line
exec_IsValid files s path line w =
    let r = open_path files s path in
    let v = open_IsValid files s path w in
    elim (Bool-cases (r.0 == 0)) [
      | inl k ↦ rw k (
          changed (is_at r.1.cur) (load_and_execute files line) r.1
            (load_and_execute-Fine files line) v)
      | inr k ↦ rw k v
    ]

show_break-IsValid :
    (files : Files) (s : Sviewer) (tb : Breakpoint) → IsValid s → IsValid (show_break files s tb)
unfolding show_break source_enable_break source_disable_break
show_break-IsValid files s tb w = elim (Bool-cases tb.enabled) [
  | inl k ↦
      rw k (changed (has_lpath tb.file) (mark files tb.line 1) s (mark-Fine files tb.line 1) w)
  | inr k ↦
      rw k (changed (has_lpath tb.file) (mark files tb.line 2) s (mark-Fine files tb.line 2) w)
]

show_breaks-IsValid :
    (files : Files) (s : Sviewer) (tbs : List Breakpoint)
    → IsValid s
    → IsValid (show_breaks files s tbs)
unfolding show_breaks
show_breaks-IsValid files s [] w = w
show_breaks-IsValid files s (tb ∷ tbs) w =
    show_breaks-IsValid files (show_break files s tb) tbs (show_break-IsValid files s tb w)

unmarked-Fine : Fine unmarked
unmarked-Fine = (
  λ n. refl,
  λ n w. same_count n.tlines n.buf_length n.breakpts (zeros n.breakpts) (length-zeros n.breakpts) w,
)

clear_IsValid : (s : Sviewer) → IsValid s → IsValid (source_clear_breaks s)
unfolding source_clear_breaks
clear_IsValid s (w, v) = (all_mapped unmarked s.list_head unmarked-Fine w, shows s.cur v)
  where
    shows : (o : Option ℕ) → Shows o s.list_head → Shows o (map unmarked s.list_head)
    shows none v = tt
    shows (some a) (n, h) =
        (unmarked n, find_first-map (is_at (some a)) unmarked s.list_head n (λ m. refl) h)

release_Fine : Fine release_file_memory
unfolding release_file_memory
release_Fine = (λ n. refl, λ n w. (refl, refl))

reload_IsValid :
    (files : Files) (wanted : Bool) (s : Sviewer) (path : List ℕ) (time : ℕ) (o : Option Source)
    → IsValid s
    → IsValid (reload_found files wanted s path time o).1
unfolding reload_found
reload_IsValid files wanted s path time none w = w
reload_IsValid files wanted s path time (some n) w =
    elim (Bool-cases (wanted && ltb n.last_modification time)) [
      | inr k ↦ rw k w
      | inl k ↦ rw k (newer s.cur)
    ]
  where
    newer : (o : Option ℕ) → IsValid (reload_newer files s path o).1
    newer none = w
    newer (some a) =
        changed (has_path path) (λ n. (load_file files n).1)
          (record s { list_head = change_first (is_at s.cur) release_file_memory s.list_head })
          (load_Fine files) (changed (is_at s.cur) release_file_memory s release_Fine w)

reload_stat-IsValid :
    (files : Files) (wanted : Bool) (s : Sviewer) (path : List ℕ) (o : Option ℕ)
    → IsValid s
    → IsValid (reload_stat files wanted s path o).1
unfolding reload_stat
reload_stat-IsValid files wanted s path none w = w
reload_stat-IsValid files wanted s path (some time) w =
    reload_IsValid files wanted s path time (find_first (has_path path) s.list_head) w

step-IsValid : (files : Files) (s : Sviewer) (op : Op) → IsValid s → IsValid (step files s op)
unfolding source_set_relative_path source_vscroll source_set_sel_line update_breakpoints
    source_reload
step-IsValid files s (added path) w = add_IsValid s path w
step-IsValid files s (related path lpath) w =
    changed (has_path path) (λ n. record n { lpath = some lpath }) s (λ n. refl, λ n v. v) w
step-IsValid files s (scrolled offset) w =
    changed (is_at s.cur) (λ n. select (n.sel_line +ℤ offset) n) s (λ n. refl, λ n v. v) w
step-IsValid files s (selected line) w =
    changed (is_at s.cur) (select (line +ℤ negsuc 0)) s (λ n. refl, λ n v. v) w
step-IsValid files s (executed path line) w = exec_IsValid files s path line w
step-IsValid files s (marked tbs) w =
    show_breaks-IsValid files (source_clear_breaks s) tbs (clear_IsValid s w)
step-IsValid files s (reloaded auto path force) w =
    reload_stat-IsValid files (auto || force) s path (files.modified path) w

run-IsValid : (ops : List (Files × Op)) (s : Sviewer) → IsValid s → IsValid (run s ops)
run-IsValid [] s w = w
run-IsValid ((files, op) ∷ ops) s w = run-IsValid ops (step files s op) (step-IsValid files s op w)

-- Whatever cgdb does with the files, from none on, and however the files outside change between two
-- steps: each file in the list has as many marks for breakpoints as its buffer has lines, and none of
-- either while no text of it is in memory, and what is on display is a file of the list.
pub run_new-IsValid : (ops : List (Files × Op)) → IsValid (run source_new ops)
run_new-IsValid ops = run-IsValid ops source_new (tt, tt)
