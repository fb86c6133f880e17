-- ===== src/Adt/Tests.antt =====
-- The containers of lib/adt at concrete inputs.
use cgdb.Base.{refl, ℕ, ◌+◌, Bool, some, ltb, length, pos, arith, List, [], ◌∷◌, ◌≡◌, codes}
use cgdb.Adt.Ibuf.{ibuf_init}
use cgdb.Adt.Ibuf.Run.{Op, addchar, delete, clear, trim, run, Holds, run_init-Holds}
use cgdb.Adt.TgdbList.{Memory, TgdbList, tgdb_list_init, foreach, free}
use cgdb.Adt.TgdbList.Clear.{visit, unvisited}
use cgdb.Adt.TgdbList.Run
use cgdb.Adt.TgdbList.Prepend.{put_three, prepend-append}
use cgdb.Adt.TgdbList.Run.{added, cleared, kept, empty, run_init-foreach}

abbrev junk : ℕ → ℕ
junk i = 7

-- ` b x` without its last character, trimmed.
abbrev changes : List Op
changes =
    addchar b'z'
    ∷ clear
    ∷ addchar b' '
    ∷ addchar b'b'
    ∷ addchar b' '
    ∷ addchar b'x'
    ∷ delete
    ∷ trim
    ∷ []

run_init-Holds_example : Holds (codes "b") (run (ibuf_init junk) changes)
run_init-Holds_example = run_init-Holds junk changes

-- A list that is cleared between two items and three.
abbrev fills : List (Run.Op ℕ)
fills = added 4 ∷ added 5 ∷ cleared ∷ added 1 ∷ added 9 ∷ added 2 ∷ []

-- Adds up the items, and fails at one above 5.
abbrev total : ℕ → ℕ → Bool × ℕ
total x s = (ltb x 6, x + s)

run_init-foreach_example :
    (m1 : Memory ℕ) × (l1 : TgdbList) × (m2 : Memory ℕ) × (l2 : TgdbList) × (Run.run 0 fills empty
        tgdb_list_init
      ≡ some (m1, l1))
    × (l1.size ≡ pos (length (kept [] fills)))
    × (foreach total 4 m1 l1 7 ≡ some (visit total (kept [] fills) 7))
    × (free total 4 m1 l1 7
        ≡ some ((visit total (kept [] fills) 7).0, (visit total (kept [] fills) 7).1, m2, l2))
    × (foreach total 4 m2 l2 0 ≡ some (visit total (unvisited total (kept [] fills) 7) 0))
run_init-foreach_example = run_init-foreach total fills empty 7 0 4 (omega arith) (omega arith)

prepend-append_example :
    (m1 : Memory ℕ) × (l1 : TgdbList) × (put_three (added 4 ∷ cleared ∷ []) 1 2 3 empty
      ≡ some (m1, l1))
    × (l1.size ≡ pos 3)
    × (foreach total 4 m1 l1 0 ≡ some (visit total (3 ∷ []) 0))
prepend-append_example =
    prepend-append total (added 4 ∷ cleared ∷ []) empty 1 2 3 0 4 (omega arith) refl (omega arith)
