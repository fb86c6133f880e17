-- ===== src/Sources/Keep.antt =====
-- cgdb/sources.c: what changes of nodes keep.
use cgdb.Base.{
  ℕ, zero, suc, Bool, List, [], ◌∷◌, length, ◌==◌, Option, none, some, Option-cases, ℤ, pos, negsuc,
  map, ◌≡◌, refl, ◌∙◌, inl, inr, Bool-cases,
}
use cgdb.Sources.{
  read_lines, Files, Source, Sviewer, find_first, change_first, is_at, buffered, load_file,
  release_file_memory, fill, mark, execute, put_mark, index, load_and_execute,
}
use cgdb.Sources.Marks.{length-put_mark, length-zeros}

-- The buffer of a node: a mark for each line, and nothing when no text is in memory.
abbrev pub Buffered : Option (List (List ℕ)) → ℕ → List ℕ → Type 0
Buffered none n marks = (n ≡ 0) × (length marks ≡ 0)
Buffered (some lines) n marks = (n ≡ length lines) × (length marks ≡ n)

abbrev pub Sound : Source → Type 0
Sound n = Buffered n.tlines n.buf_length n.breakpts

abbrev pub AllSound : List Source → Type 0
AllSound [] = Unit
AllSound (n ∷ ns) = Sound n × AllSound ns

-- A node is on display only if it is in the list.
abbrev pub Shows : Option ℕ → List Source → Type 0
Shows none ns = Unit
Shows (some a) ns = (n : Source) × (find_first (is_at (some a)) ns ≡ some n)

abbrev pub IsValid : Sviewer → Type 0
IsValid s = AllSound s.list_head × Shows s.cur s.list_head

-- A change of nodes that keeps this.
abbrev pub Fine : (Source → Source) → Type 0
Fine f = ((m : Source) → (f m).address ≡ m.address) × ((m : Source) → Sound m → Sound (f m))

all_changed :
    (test : Source → Bool) (f : Source → Source) (ns : List Source)
    → Fine f
    → AllSound ns
    → AllSound (change_first test f ns)
all_changed test f [] k w = tt
all_changed test f (n ∷ ns) k (w, ws) = elim (Bool-cases (test n)) [
  | inl t ↦ rw t (k.1 n w, ws)
  | inr t ↦ rw t (w, all_changed test f ns k ws)
]

pub all_mapped :
    (f : Source → Source) (ns : List Source) → Fine f → AllSound ns → AllSound (map f ns)
all_mapped f [] k w = tt
all_mapped f (n ∷ ns) k (w, ws) = (k.1 n w, all_mapped f ns k ws)

still_found :
    (a : ℕ) (test : Source → Bool) (f : Source → Source) (ns : List Source)
    → Fine f
    → Shows (some a) ns
    → Shows (some a) (change_first test f ns)
still_found a test f [] k w = w
still_found a test f (m ∷ ns) k (n, h) = elim (Bool-cases (test m)) [
  | inl t ↦ elim (Bool-cases (m.address == a)) [
    | inl u ↦ rw (t, changed_address m u) (f m, refl)
    | inr u ↦ rw (t, changed_address m u) (n, rw u at h)
  ]
  | inr t ↦ elim (Bool-cases (m.address == a)) [
    | inl u ↦ rw (t, u) (m, refl)
    | inr u ↦ rw (t, u) (still_found a test f ns k (n, rw u at h))
  ]
]
  where
    changed_address : (m : Source) {b : Bool} → (m.address == a) ≡ b → ((f m).address == a) ≡ b
    changed_address m u = rw (k.0 m) u

still_shown :
    (o : Option ℕ) (test : Source → Bool) (f : Source → Source) (ns : List Source)
    → Fine f
    → Shows o ns
    → Shows o (change_first test f ns)
still_shown none test f ns k w = tt
still_shown (some a) test f ns k w = still_found a test f ns k w

pub changed :
    (test : Source → Bool) (f : Source → Source) (s : Sviewer)
    → Fine f
    → IsValid s
    → IsValid (record s { list_head = change_first test f s.list_head })
changed test f s k (w, v) =
    (all_changed test f s.list_head k w, still_shown s.cur test f s.list_head k v)

pub load_Fine : (files : Files) → Fine (λ n. (load_file files n).1)
unfolding load_file release_file_memory fill
load_Fine files = (λ n. (loaded n).0, λ n w. (loaded n).1)
  where
    loaded :
        (n : Source) → ((load_file files n).1.address ≡ n.address) × Sound (load_file files n).1
    loaded n = elim (Option-cases (files.modified n.path)) [
      | inl k ↦ rw k (refl, (refl, refl))
      | inr (time, k) ↦ elim (Option-cases (files.content n.path)) [
        | inl j ↦ rw (k, j) (refl, (refl, refl))
        | inr (text, j) ↦
            rw (k, j)
              (refl, (refl, length-zeros (files.highlight n.path (read_lines 4095 [] text))))
      ]
    ]

buffered-Fine : (files : Files) → Fine (λ n. (buffered files n.tlines n).1)
unfolding buffered load_file
buffered-Fine files = (λ n. (kept n.tlines n).0, λ n. (kept n.tlines n).1)
  where
    kept :
        (o : Option (List (List ℕ))) (n : Source)
        → ((buffered files o n).1.address ≡ n.address) × (Sound n → Sound (buffered files o n).1)
    kept (some lines) n = (refl, λ w. w)
    kept none n = ((load_Fine files).0 n, (load_Fine files).1 n)

pub same_count :
    (o : Option (List (List ℕ))) (n : ℕ) (ms ks : List ℕ)
    → length ks ≡ length ms
    → Buffered o n ms
    → Buffered o n ks
same_count none n ms ks h (a, b) = (a, h ∙ b)
same_count (some lines) n ms ks h (a, b) = (a, h ∙ b)

pub mark-Fine : (files : Files) (line : ℤ) (v : ℕ) → Fine (mark files line v)
unfolding mark
mark-Fine files line v = (λ n. (kept n).0, λ n. (kept n).1)
  where
    kept :
        (n : Source)
        → ((mark files line v n).address ≡ n.address) × (Sound n → Sound (mark files line v n))
    kept n =
        let b = (buffered files n.tlines n).1 in
        let e = (buffered-Fine files).0 n in
        elim (Bool-cases ((buffered files n.tlines n).0 == 0)) [
          | inl k ↦ rw k (
            e,
            λ w.
                same_count b.tlines b.buf_length b.breakpts
                  (put_mark (index line b.buf_length) v b.breakpts)
                  (length-put_mark (index line b.buf_length) v b.breakpts)
                  ((buffered-Fine files).1 n w),
          )
          | inr k ↦ rw k (e, (buffered-Fine files).1 n)
        ]

execute-Fine : (line : ℤ) → Fine (execute line)
execute-Fine (pos zero) = (λ n. refl, λ n w. w)
execute-Fine (pos (suc i)) = (λ n. refl, λ n w. w)
execute-Fine (negsuc i) = (λ n. refl, λ n w. w)

pub load_and_execute-Fine : (files : Files) (line : ℤ) → Fine (load_and_execute files line)
unfolding load_and_execute
load_and_execute-Fine files line = (λ n. (kept n).0, λ n. (kept n).1)
  where
    kept :
        (n : Source)
        → ((load_and_execute files line n).address ≡ n.address)
          × (Sound n → Sound (load_and_execute files line n))
    kept n =
        let b = (buffered files n.tlines n).1 in
        let e = (buffered-Fine files).0 n in
        elim (Bool-cases ((buffered files n.tlines n).0 == 0)) [
          | inl k ↦ rw k (
            (execute-Fine line).0 b ∙ e,
            λ w. (execute-Fine line).1 b ((buffered-Fine files).1 n w),
          )
          | inr k ↦ rw k (e, (buffered-Fine files).1 n)
        ]
