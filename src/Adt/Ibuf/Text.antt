-- ===== src/Adt/Ibuf/Text.antt =====
-- lib/adt/ibuf.c as a text: the characters of a buffer and the bounds of its memory.
use cgdb.Base.{
  delchar, delchar-append, ℕ, suc, ◌+◌, ◌-◌, ◌*◌, ◌≤◌, List, [], ◌∷◌, ◌++◌, ltb, ◌==◌, ◌≡◌, refl,
  ◌∙◌, sym, ap, arith, Bool-cases, inl, inr, ==→≡, ==_false→≢,
}
use cgdb.Adt.Ibuf.{Ibuf, store, read, ibuf_init, ibuf_clear, grow, ibuf_addchar, ibuf_delchar}
use cgdb.Adt.Ibuf.Memory.{read-store, read_last}

abbrev pub contents : Ibuf → List ℕ
contents s = read s.buf 0 s.cur_buf_pos

-- The place of the 0 lies within the blocks, they within the memory, and one block within it too.
abbrev pub InBounds : Ibuf → Type 0
InBounds s =
    (1 ≤ s.block_size)
    × (s.cur_buf_pos + 1 ≤ s.cur_block_size * s.block_size)
    × (s.cur_block_size * s.block_size ≤ s.allocated)
    × (s.block_size ≤ s.allocated)
    × (s.buf s.cur_buf_pos ≡ 0)

pub ibuf_init-InBounds : (junk : ℕ → ℕ) → InBounds (ibuf_init junk)
unfolding ibuf_init
ibuf_init-InBounds junk = ground arith

one_more : (a b : ℕ) → (a + 1) * b ≡ a * b + b
one_more a b = grind arith

-- After `grow` the next character and the 0 behind it fit.
abbrev Grown : Ibuf → Ibuf → Type 0
Grown s g =
    (1 ≤ g.block_size)
    × (s.cur_buf_pos + 2 ≤ g.cur_block_size * g.block_size)
    × (g.cur_block_size * g.block_size ≤ g.allocated)
    × (g.block_size ≤ g.allocated)
    × (g.buf ≡ s.buf)
    × (g.cur_buf_pos ≡ s.cur_buf_pos)

grow-Grown : (s : Ibuf) → InBounds s → Grown s (grow s)
unfolding grow
grow-Grown s (w1, w2, w3, w4, w5) =
    let m = one_more s.cur_block_size s.block_size in
    elim (Bool-cases (s.cur_buf_pos + 1 == s.cur_block_size * s.block_size)) [
      | inl h ↦ rw h (
        w1,
        omega (arith, ==→≡ (s.cur_buf_pos + 1) (s.cur_block_size * s.block_size) h),
        omega arith,
        omega arith,
        refl,
        refl,
      )
      | inr h ↦ rw h (
        w1,
        omega (arith, ==_false→≢ (s.cur_buf_pos + 1) (s.cur_block_size * s.block_size) h),
        w3,
        w4,
        refl,
        refl,
      )
    ]

at_store : (b : ℕ → ℕ) (i v : ℕ) → store b i v i ≡ v
at_store b i v = ground arith

added :
    (b : ℕ → ℕ) (p c : ℕ) → read (store (store b p c) (p + 1) 0) 0 (p + 1) ≡ read b 0 p ++ c ∷ []
added b p c =
    let m = store b p c in
    let next : p + 1 ≡ suc p = omega arith in
    let last : read m 0 p ++ m p ∷ [] ≡ read b 0 p ++ c ∷ [] =
      ground (arith, read-store b p c 0 p (inr (omega arith)), at_store b p c) in
    read-store m (p + 1) 0 0 (p + 1) (inr (omega arith)) ∙ ap (read m 0) next ∙ read_last m p ∙ last

pub addchar_lem :
    (s : Ibuf) (c : ℕ)
    → InBounds s
    → InBounds (ibuf_addchar s c) × (contents (ibuf_addchar s c) ≡ contents s ++ c ∷ [])
unfolding ibuf_addchar
addchar_lem s c w =
    let g = grow s in
    let (g1, g2, g3, g4, gb, gp) = grow-Grown s w in
    let fits : g.cur_buf_pos + 1 + 1 ≤ g.cur_block_size * g.block_size = omega (arith, g2, gp) in
    let same : read g.buf 0 g.cur_buf_pos ≡ contents s =
      ap (λ b. read b 0 g.cur_buf_pos) gb ∙ ap (read s.buf 0) gp in
    (
      (g1, fits, g3, g4, at_store (store g.buf g.cur_buf_pos c) (g.cur_buf_pos + 1) 0),
      added g.buf g.cur_buf_pos c ∙ ap (λ r. r ++ c ∷ []) same,
    )

pub clear_lem : (s : Ibuf) → InBounds s → InBounds (ibuf_clear s) × (contents (ibuf_clear s) ≡ [])
unfolding ibuf_clear
clear_lem s (w1, w2, w3, w4, w5) =
    ((w1, omega (arith, w1), omega (arith, w4), w4, at_store s.buf 0 0), refl)

-- The buffer cut off at a place before its end.
abbrev pub cut_at : ℕ → (ℕ → ℕ) → Ibuf → Ibuf
cut_at e b s = record s { cur_buf_pos = e; buf = store b e 0 }

pub cut_lem :
    (s : Ibuf) (e : ℕ) (b : ℕ → ℕ)
    → InBounds s
    → e ≤ s.cur_buf_pos
    → InBounds (cut_at e b s) × (contents (cut_at e b s) ≡ read b 0 e)
cut_lem s e b (w1, w2, w3, w4, w5) l =
    ((w1, omega (arith, l, w2), w3, w4, at_store b e 0), read-store b e 0 0 e (inr (omega arith)))

pub delchar_lem :
    (s : Ibuf)
    → InBounds s
    → InBounds (ibuf_delchar s) × (contents (ibuf_delchar s) ≡ delchar (contents s))
unfolding ibuf_delchar
delchar_lem s w = elim (Bool-cases (ltb 0 s.cur_buf_pos)) [
  | inl h ↦
      let p = s.cur_buf_pos - 1 in
      let (i, c) = cut_lem s p s.buf w (omega arith) in
      let whole : s.cur_buf_pos ≡ suc p = ground (arith, h) in
      rw h (
        i,
        c
            ∙ sym (
                ap delchar (ap (read s.buf 0) whole ∙ read_last s.buf p)
                ∙ delchar-append (read s.buf 0 p) (s.buf p)),
      )
  | inr h ↦
      let empty : s.cur_buf_pos ≡ 0 = ground (arith, h) in
      rw h (w, ap (read s.buf 0) empty ∙ sym (ap (λ n. delchar (read s.buf 0 n)) empty))
]
