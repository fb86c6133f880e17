-- ===== src/Sources.antt =====
-- cgdb/sources.c: the source files that cgdb shows, with the selected line and the breakpoints of each.
-- An address names a node of the list, `cur` is the address of the one on display. The files outside and
-- what highlight.c makes of a file's lines are the argument `Files`. Columns and drawing are left out.
pub mod Found
pub mod Marks
pub mod Keep
pub mod Run
mod Tests
use cgdb.Base.{
  ℕ, zero, suc, ◌+◌, ◌-◌, Bool, true, false, ◌&&◌, ◌||◌, not, List, [], ◌∷◌, ◌++◌, length, ltb,
  ◌==◌, if◌then◌else◌, Option, none, some, eq_list, ℤ, pos, negsuc, map,
}
use cgdb.Annotate.Context.{Breakpoint}

-- The modification time of a path and the text that can be read there, without a 0 in it. `highlight`
-- also stands for the copy that is made without colours.
pub record Files : Type 0 where
  pub modified : List ℕ → Option ℕ
  pub content : List ℕ → Option (List ℕ)
  pub highlight : List ℕ → List (List ℕ) → List (List ℕ)

-- `struct list_node`, with the buffer that is displayed. `none` is NULL.
pub record Source : Type 0 where
  pub address : ℕ
  pub path : List ℕ
  pub lpath : Option (List ℕ)
  pub tlines : Option (List (List ℕ))
  pub buf_length : ℕ
  pub breakpts : List ℕ
  pub sel_line : ℤ
  pub sel_rline : ℤ
  pub exe_line : ℤ
  pub last_modification : ℕ

-- `struct sviewer`. `fresh` is the address of the next node.
pub record Sviewer : Type 0 where
  pub list_head : List Source
  pub cur : Option ℕ
  pub fresh : ℕ

-- The first node that a loop over the list stops at, and a change of it.
abbrev pub find_first : (Source → Bool) → List Source → Option Source
find_first test [] = none
find_first test (n ∷ ns) = if test n then some n else find_first test ns

abbrev pub change_first : (Source → Bool) → (Source → Source) → List Source → List Source
change_first test f [] = []
change_first test f (n ∷ ns) = if test n then f n ∷ ns else n ∷ change_first test f ns

abbrev pub same_path : Option (List ℕ) → List ℕ → Bool
same_path none p = false
same_path (some q) p = eq_list p q

abbrev pub has_path : List ℕ → Source → Bool
has_path p n = eq_list p n.path

abbrev pub has_lpath : List ℕ → Source → Bool
has_lpath p n = same_path n.lpath p

abbrev pub is_at : Option ℕ → Source → Bool
is_at none n = false
is_at (some a) n = n.address == a

-- `get_node` and `get_relative_node`.
abbrev pub get_node : Sviewer → List ℕ → Option Source
get_node s p = find_first (has_path p) s.list_head

abbrev pub get_relative_node : Sviewer → List ℕ → Option Source
get_relative_node s p = find_first (has_lpath p) s.list_head

-- `release_file_memory`, of a node that is not NULL.
unfoldable pub release_file_memory : Source → Source
release_file_memory n = record n { tlines = none; buf_length = 0; breakpts = [] }

-- A line as fgets gives it, less a newline at its end, or less a carriage return there.
abbrev pub chop : List ℕ → List ℕ
chop [] = []
chop (c ∷ []) = if c == 10 then [] else if c == 13 then [] else c ∷ []
chop (c ∷ d ∷ r) = c ∷ chop (d ∷ r)

-- The loop of `load_file`: fgets reads up to a newline, and at most MAX_LINE - 1 characters, `room` of
-- which are left behind `line`.
unfoldable pub read_lines : (room : ℕ) (line : List ℕ) → List ℕ → List (List ℕ)
read_lines room [] [] = []
read_lines room (x ∷ line) [] = chop (x ∷ line) ∷ []
read_lines room line (c ∷ cs) =
    if (c == 10) || (room == 1)
    then chop (line ++ c ∷ []) ∷ read_lines 4095 [] cs
    else read_lines (room - 1) (line ++ c ∷ []) cs

abbrev pub zeros : {A : Type 0} → List A → List ℕ
zeros [] = []
zeros (x ∷ xs) = 0 ∷ zeros xs

-- The lines of a file are put into the buffer, without breakpoints. An empty file gives an empty
-- buffer, where the source can leave `tlines` NULL and load the file again at the next use.
unfoldable pub fill : Files → Source → List ℕ → Source
unfolding read_lines
fill files n text =
    let lines = files.highlight n.path (read_lines 4095 [] text) in
    record n { tlines = some lines; buf_length = length lines; breakpts = zeros lines }

-- The end of `load_file`, with the buffer empty and the time of the file noted.
abbrev pub load_text : Files → Source → Option (List ℕ) → ℕ × Source
unfolding fill
load_text files n none = (1, n)
load_text files n (some text) = (0, fill files n text)

abbrev pub load_timed : Files → Source → Option ℕ → ℕ × Source
load_timed files n none = (2, record n { last_modification = 0 })
load_timed files n (some time) =
    load_text files (record n { last_modification = time }) (files.content n.path)

-- `load_file`, and the number that it returns.
unfoldable pub load_file : Files → Source → ℕ × Source
unfolding release_file_memory
load_file files n = load_timed files (release_file_memory n) (files.modified n.path)

-- `if (!node->buf.tlines && load_file(node))`.
abbrev pub buffered : Files → Option (List (List ℕ)) → Source → ℕ × Source
unfolding load_file
buffered files none n = load_file files n
buffered files (some lines) n = (0, n)

-- `source_new`.
abbrev pub source_new : Sviewer
source_new = record { list_head = []; cur = none; fresh = 0 }

-- `source_add`.
abbrev pub new_source : ℕ → List ℕ → Source
new_source address path = record {
  address = address;
  path = path;
  lpath = none;
  tlines = none;
  buf_length = 0;
  breakpts = [];
  sel_line = pos 0;
  sel_rline = pos 0;
  exe_line = pos 0;
  last_modification = 0;
}

unfoldable pub source_add : Sviewer → List ℕ → Sviewer
source_add s path = record s {
  list_head = new_source s.fresh path ∷ s.list_head;
  fresh = suc s.fresh;
}

-- `source_set_relative_path`, less its result.
unfoldable pub source_set_relative_path : Sviewer → List ℕ → List ℕ → Sviewer
source_set_relative_path s path lpath = record s {
  list_head = change_first (has_path path) (λ n. record n { lpath = some lpath }) s.list_head;
}

-- A line number brought into the file: -1 when it is empty.
abbrev pub clamp : ℤ → ℕ → ℤ
clamp z zero = negsuc 0
clamp (negsuc a) (suc n) = pos 0
clamp (pos a) (suc n) = if ltb a (suc n) then pos a else pos n

-- The sum of two ints, which does not overflow.
abbrev pub minus : ℕ → ℕ → ℤ
minus a zero = pos a
minus zero (suc b) = negsuc b
minus (suc a) (suc b) = minus a b

infixl 20 ◌+ℤ◌
abbrev pub ◌+ℤ◌ : ℤ → ℤ → ℤ
pos a +ℤ pos b = pos (a + b)
pos a +ℤ negsuc b = minus a (suc b)
negsuc a +ℤ pos b = minus b (suc a)
negsuc a +ℤ negsuc b = negsuc (suc (a + b))

abbrev pub select : ℤ → Source → Source
select line n = let l = clamp line n.buf_length in record n { sel_line = l; sel_rline = l }

-- `source_vscroll` and `source_set_sel_line`.
unfoldable pub source_vscroll : Sviewer → ℤ → Sviewer
source_vscroll s offset = record s {
  list_head = change_first (is_at s.cur) (λ n. select (n.sel_line +ℤ offset) n) s.list_head;
}

unfoldable pub source_set_sel_line : Sviewer → ℤ → Sviewer
source_set_sel_line s line = record s {
  list_head = change_first (is_at s.cur) (select (line +ℤ negsuc 0)) s.list_head;
}

-- The part of `source_set_exec_line` that finds the node, and the number that it returns there, or 0.
abbrev pub shown : Sviewer → List ℕ → Option Source → Sviewer
shown s path (some n) = record s { cur = some n.address }
shown s path none = record (source_add s path) { cur = some s.fresh }

abbrev pub open_cur : Sviewer → Option ℕ → ℕ × Sviewer
open_cur s none = (3, s)
open_cur s (some a) = (0, s)

abbrev pub open_stat : Sviewer → List ℕ → Option ℕ → ℕ × Sviewer
unfolding source_add
open_stat s path none = (5, s)
open_stat s path (some time) = (0, shown s path (get_node s path))

abbrev pub open_path : Files → Sviewer → Option (List ℕ) → ℕ × Sviewer
unfolding source_add
open_path files s none = open_cur s s.cur
open_path files s (some path) = open_stat s path (files.modified path)

abbrev pub execute : ℤ → Source → Source
execute (pos zero) n = n
execute line n =
    let l = clamp (line +ℤ negsuc 0) n.buf_length in record n { sel_line = l; exe_line = l }

-- What becomes of the node on display.
abbrev pub load_and_execute : Files → ℤ → Source → Source
unfolding load_file
load_and_execute files line n =
    let b = buffered files n.tlines n in if b.0 == 0 then execute line b.1 else b.1

abbrev pub load_result : Files → Option Source → ℕ
unfolding load_file
load_result files none = 0
load_result files (some n) = if (buffered files n.tlines n).0 == 0 then 0 else 4

-- `source_set_exec_line`, and the number that it returns.
unfoldable pub source_set_exec_line : Files → Sviewer → Option (List ℕ) → ℤ → ℕ × Sviewer
unfolding open_path load_and_execute load_result
source_set_exec_line files s path line =
    let r = open_path files s path in
    if r.0 == 0
    then (
      load_result files (find_first (is_at r.1.cur) r.1.list_head),
      record r.1 {
        list_head = change_first (is_at r.1.cur) (load_and_execute files line) r.1.list_head;
      },
    )
    else r

-- The index of a line of the file.
abbrev pub index : ℤ → ℕ → Option ℕ
index (pos (suc i)) n = if ltb i n then some i else none
index _ n = none

abbrev pub put_mark : Option ℕ → ℕ → List ℕ → List ℕ
put_mark none v marks = marks
put_mark (some i) v [] = []
put_mark (some zero) v (m ∷ marks) = v ∷ marks
put_mark (some (suc i)) v (m ∷ marks) = m ∷ put_mark (some i) v marks

-- The node whose breakpoint is set, loaded first.
unfoldable pub mark : Files → ℤ → ℕ → Source → Source
unfolding load_file
mark files line v n =
    let b = buffered files n.tlines n in
    if b.0 == 0
    then record b.1 { breakpts = put_mark (index line b.1.buf_length) v b.1.breakpts }
    else b.1

-- `source_enable_break` and `source_disable_break`.
unfoldable pub source_enable_break : Files → Sviewer → List ℕ → ℤ → Sviewer
unfolding mark
source_enable_break files s path line = record s {
  list_head = change_first (has_lpath path) (mark files line 1) s.list_head;
}

unfoldable pub source_disable_break : Files → Sviewer → List ℕ → ℤ → Sviewer
unfolding mark
source_disable_break files s path line = record s {
  list_head = change_first (has_lpath path) (mark files line 2) s.list_head;
}

abbrev pub unmarked : Source → Source
unmarked n = record n { breakpts = zeros n.breakpts }

-- `source_clear_breaks`.
unfoldable pub source_clear_breaks : Sviewer → Sviewer
source_clear_breaks s = record s { list_head = map unmarked s.list_head }

-- The breakpoints of gdb, as `process_commands` of cgdb/cgdb.c shows them.
abbrev pub show_break : Files → Sviewer → Breakpoint → Sviewer
unfolding source_enable_break source_disable_break
show_break files s tb =
    if tb.enabled
    then source_enable_break files s tb.file tb.line
    else source_disable_break files s tb.file tb.line

unfoldable pub show_breaks : Files → Sviewer → List Breakpoint → Sviewer
unfolding show_break
show_breaks files s [] = s
show_breaks files s (tb ∷ tbs) = show_breaks files (show_break files s tb) tbs

unfoldable pub update_breakpoints : Files → Sviewer → List Breakpoint → Sviewer
unfolding source_clear_breaks show_breaks
update_breakpoints files s tbs = show_breaks files (source_clear_breaks s) tbs

-- The end of `source_reload`, when the file is newer than the buffer.
abbrev pub reload_node : Files → Sviewer → List ℕ → Sviewer
unfolding release_file_memory load_file
reload_node files s path = record s {
  list_head =
      change_first (has_path path) (λ n. (load_file files n).1)
        (change_first (is_at s.cur) release_file_memory s.list_head);
}

abbrev pub reload_result : Files → Option Source → ℤ
unfolding load_file
reload_result files none = pos 0
reload_result files (some n) = if (load_file files n).0 == 0 then pos 0 else negsuc 0

abbrev pub reload_newer : Files → Sviewer → List ℕ → Option ℕ → ℤ × Sviewer
unfolding reload_node reload_result
reload_newer files s path none = (negsuc 0, s)
reload_newer files s path (some a) =
    (reload_result files (get_node s path), reload_node files s path)

abbrev pub reload_found : Files → Bool → Sviewer → List ℕ → ℕ → Option Source → ℤ × Sviewer
unfolding reload_newer
reload_found files wanted s path time none = (pos 1, s)
reload_found files wanted s path time (some n) =
    if wanted && ltb n.last_modification time then reload_newer files s path s.cur else (pos 0, s)

abbrev pub reload_stat : Files → Bool → Sviewer → List ℕ → Option ℕ → ℤ × Sviewer
unfolding reload_found
reload_stat files wanted s path none = (negsuc 0, s)
reload_stat files wanted s path (some time) =
    reload_found files wanted s path time (get_node s path)

-- `source_reload`, and the number that it returns. `auto` is the option autosourcereload.
unfoldable pub source_reload :
    Files → (auto : Bool) → Sviewer → List ℕ → (force : Bool) → ℤ × Sviewer
unfolding reload_stat
source_reload files auto s path force =
    reload_stat files (auto || force) s path (files.modified path)
