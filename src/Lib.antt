-- ===== src/Lib.antt =====
-- cgdb: a curses front end of the GNU debugger. A key that the user types goes through the key
-- mappings of lib/kui before cgdb/cgdb.c acts on it; what gdb prints goes through the annotation
-- filter of lib/tgdb/annotate-two, which splits it into text for the user's window, the output of
-- commands that tgdb issued itself, and responses to the front end.
--
-- Kui: lib/kui.
--  * Kui/Tree.antt is lib/kui/kui_tree.c: a node of the trie is `Node`, its list of children `Nodes`
--    (a sorted std_list), and `Tree` is struct kui_tree with its matching state. The array of keys
--    that a 0 ends is a list without the 0. A pointer to a node is a copy of the node: while keys are
--    matched nothing changes the trie. `node_insert`, `node_delete`, `push_key`, `reset_state` and
--    `finalize_state` are kui_tree_node_insert and so on. The children Kui/Tree/* hold the look-up
--    that describes a trie from outside (Spec), and the facts on insertion (Lookup, Sorted, Full),
--    deletion (Remove, Delete, Forget) and matching (Match).
--  * Kui/Keycode.antt and Kui/Term.antt are lib/kui/kui_term.c: the table cgdb_keycodes, its
--    look-ups, and kui_term_string_to_key_array. A character is its code below 256, and
--    becomes a key as a signed char becomes an int. Kui/Term/RoundTrip writes keys as text.
--  * Kui/MapSet.antt and Kui/Context.antt are lib/kui/kui.c: kui_map, kui_map_set and kuictx.
--    `findkey` is kui_findkey and `getkey` is kui_getkey. The callback that reads a key from outside
--    is a parameter of the definitions: it takes its own state and the time to wait in milliseconds,
--    and answers a key, 0 when none came in time, or a failure. The main loop of kui_findkey takes
--    fuel, one for each key that it reads, and answers `no_fuel` when it is used up; fuel above the
--    number of keys waiting is enough. Rounds of kui_getkey take fuel of their own, since the source
--    repeats them without a bound. Kui/Munch.antt is longest-match reading on plain lists of keys;
--    Kui/Context/* relate the context to it.
--
-- Adt: lib/adt/ibuf.c, the buffer that the rest builds texts in. Adt/Ibuf.antt has its memory, its size
-- in blocks and the loops of ibuf_trim; a loop recurses on the number of characters that are left.
-- Adt/Ibuf/* relate it to plain lists of characters. Adt/TgdbList.antt is lib/adt/tgdb_list.c on a memory
-- of nodes at addresses, with the pointers and the sizes that the code keeps. Its loops take fuel, one
-- round more than the list has items being enough. Adt/TgdbList/Cells.antt describes the chain of nodes
-- that a list is, Append, Clear and Prepend follow the operations, and Run.antt compares with a plain list.
--
-- Annotate: lib/tgdb/annotate-two. An ibuf is the list of its characters here.
--  * Annotate/Context.antt holds the state: struct commands, struct data, struct globals and the part
--    of struct annotate_two that the output of gdb changes, with the list of responses and the list
--    of issued commands as fields of it. Annotate/Commands.antt and Annotate/Issue.antt are commands.c,
--    Annotate/Data.antt is data.c and the preparation of commands, Annotate/Table.antt is annotate.c,
--    Annotate/Machine.antt is state_machine.c. regexec, sscanf and atoi are the C library's: they are
--    the fields of `Libc`, a parameter. Characters are below 128.
--  * Annotate/Frames.antt describes gdb's output from outside, as pieces of text and annotations, and
--    Annotate/Frames/* and Annotate/Stream.antt relate a2_handle_data to it. Annotate/Dispatch.antt is
--    about the table, Annotate/Silent.antt and Annotate/Prompt.antt about internal commands and prompts,
--    Annotate/Names.antt, Annotate/Position.antt, Annotate/Located.antt, Annotate/Breakpoints.antt
--    and Annotate/Prepare.antt about commands. No loop takes
--    fuel: each runs over the characters of its input.
--
-- Scroller: cgdb/scroller.c, the lines of the gdb window. Scroller.antt has the buffer, the position and
-- all operations but the drawing. A line that `parse` changes is an array with the size that malloc is
-- asked for, and a store outside it makes the result `none`, as does a loop that would need more rounds
-- than it is given: a tab's 8, and for a text its number of characters. Scroller/Editor.antt and
-- Scroller/Log.antt say what is shown, without arrays: a line as the text left and right of the cursor,
-- and a log that changes with each character. Scroller/{Array,Trim,Parse,Add} relate the two.
-- Scroller/Rows.antt numbers the rows that the lines take, for Scroller/Move.antt. Scroller/Height.antt
-- is get_line_height.
--
-- Sources: cgdb/sources.c, the source files that are shown, and the part of cgdb/cgdb.c that gives them
-- the breakpoints of gdb. Sources.antt has the list of files; the file system and cgdb/highlight.c are a
-- parameter. The loop that reads a file runs over its characters. Sources/Found.antt is about searching
-- the list, Sources/Marks.antt about breakpoints, and Sources/{Keep,Run}.antt about all operations.
--
-- Wm: lib/wm, the window manager.
--  * Wm/Resize.antt is wm_splitter_resize_window, on the children of one splitter seen along its
--    orientation; a child's minimum size and its place are fields of it. The loops that borrow space
--    recurse on the children behind the window and in front of it. Wm/Resize/* show what a row of
--    children keeps. The curses windows, which are moved to the fields afterwards, are not part of it.
--  * Wm/Tree.antt is the tree of windows with wm_split and wm_close of lib/wm/wm.c and the functions of
--    lib/wm/wm_splitter.c behind them, on addresses instead of sizes. Of the
--    parent pointers, which lead to the place in the tree, the one of the main window is kept apart, since
--    wm_new_main can leave it at a freed splitter: `parent_freed`. An operation that reads that splitter
--    has the outcome `undefined`. Wm/Tree/Leaves.antt has the windows of a tree in order, and
--    Wm/Tree/{Split,Below,Close,Focus} relate the operations to it. Wm/Tree/Main.antt is about that
--    splitter.
--
-- Tgdb: lib/tgdb/tgdb-base/tgdb.c, which orders the commands for gdb. Tgdb.antt has the state, the
-- queues, the requests of the front end and tgdb_process, for a client that is a record of operations,
-- as tgdb_client_interface.c has it. Tgdb/Annotated.antt makes that record from annotate-two, with the
-- functions of lib/tgdb/annotate-two/a2-tgdb.c. Tgdb/Turn.antt says what tgdb relies on in a client and
-- follows the commands through the operations, Tgdb/Run.antt through sequences of events, and
-- Tgdb/Annotated/* show that annotate-two keeps to it. Tgdb/Order.antt is about the queues. No loop
-- takes fuel: each runs over a list of commands.
--
-- Not modelled: the screen (cgdb/interface.c and scr_refresh), the generated lexers and the
-- grammar of gdbmi, processes and terminals, and memory: an allocation succeeds and freeing has no
-- effect.
pub mod Base
pub mod Adt
pub mod Annotate
pub mod Kui
pub mod Scroller
pub mod Sources
pub mod Tgdb
pub mod Wm
