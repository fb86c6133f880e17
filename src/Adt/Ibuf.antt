-- ===== src/Adt/Ibuf.antt =====
-- lib/adt/ibuf.c: a growing buffer of characters. The memory behind `buf` is a function, `allocated`
-- the size of the last malloc or realloc, and `junk` what malloc returns.
pub mod Memory
pub mod Text
pub mod Trim
pub mod Run
use cgdb.Base.{
  ℕ, zero, suc, ◌+◌, ◌-◌, ◌*◌, Bool, true, false, ◌||◌, ◌&&◌, List, [], ◌∷◌, ◌++◌, ltb, leb, ◌==◌,
  if◌then◌else◌, before_nul,
}

pub record Ibuf : Type 0 where
  pub buf : ℕ → ℕ
  pub allocated : ℕ
  pub cur_buf_pos : ℕ
  pub cur_block_size : ℕ
  pub block_size : ℕ

-- `buf[i] = v`.
abbrev pub store : (ℕ → ℕ) → ℕ → ℕ → ℕ → ℕ
store b i v j = if j == i then v else b j

-- The `n` characters from `i` on.
abbrev pub read : (ℕ → ℕ) → ℕ → ℕ → List ℕ
read b i zero = []
read b i (suc n) = b i ∷ read b (suc i) n

-- `ibuf_init`.
unfoldable pub ibuf_init : (ℕ → ℕ) → Ibuf
ibuf_init junk = record {
  buf = store junk 0 0;
  allocated = 4096;
  cur_buf_pos = 0;
  cur_block_size = 1;
  block_size = 4096;
}

-- `ibuf_clear`.
unfoldable pub ibuf_clear : Ibuf → Ibuf
ibuf_clear s = record s { cur_block_size = 1; cur_buf_pos = 0; buf = store s.buf 0 0 }

-- A block is added when the next character and the 0 would not fit.
unfoldable pub grow : Ibuf → Ibuf
grow s =
    if s.cur_buf_pos + 1 == s.cur_block_size * s.block_size
    then record s {
      cur_block_size = s.cur_block_size + 1;
      allocated = (s.cur_block_size + 1) * s.block_size;
    }
    else s

-- `ibuf_addchar`.
unfoldable pub ibuf_addchar : Ibuf → ℕ → Ibuf
unfolding grow
ibuf_addchar s c =
    let g = grow s in
    record g {
      buf = store (store g.buf g.cur_buf_pos c) (g.cur_buf_pos + 1) 0;
      cur_buf_pos = g.cur_buf_pos + 1;
    }

-- `ibuf_add`, of a text without a 0.
unfoldable pub ibuf_add : Ibuf → List ℕ → Ibuf
ibuf_add s [] = s
ibuf_add s (c ∷ d) = ibuf_add (ibuf_addchar s c) d

-- `ibuf_delchar`.
unfoldable pub ibuf_delchar : Ibuf → Ibuf
ibuf_delchar s =
    if ltb 0 s.cur_buf_pos
    then record s { cur_buf_pos = s.cur_buf_pos - 1; buf = store s.buf (s.cur_buf_pos - 1) 0 }
    else s

-- The string that `ibuf_get` points to.
unfoldable pub ibuf_get : Ibuf → List ℕ
ibuf_get s = before_nul (read s.buf 0 s.allocated)

-- `ibuf_dup`.
unfoldable pub ibuf_dup : (ℕ → ℕ) → Ibuf → Ibuf
unfolding ibuf_init ibuf_get ibuf_add
ibuf_dup junk s = ibuf_add (ibuf_init junk) (ibuf_get s)

-- `isspace`, in the C locale.
abbrev pub isspace : ℕ → Bool
isspace c = c == 32 || (leb 9 c && leb c 13)

-- The first loop of `ibuf_trim`, from `i` over at most `n` characters.
unfoldable pub skip : (ℕ → ℕ) → ℕ → ℕ → ℕ
skip b i zero = i
skip b i (suc n) = if isspace (b i) then skip b (suc i) n else i

-- The second loop: `n` characters are copied from `i` on to `j` on.
unfoldable pub shift : (ℕ → ℕ) → ℕ → ℕ → ℕ → ℕ → ℕ
shift b j i zero = b
shift b j i (suc n) = shift (store b j (b i)) (suc j) (suc i) n

-- The last loop, from the end: the first character is not looked at.
unfoldable pub back : (ℕ → ℕ) → ℕ → ℕ
back b zero = zero
back b (suc i) = if isspace (b (suc i)) then back b i else suc i

-- What `ibuf_trim` does at the end of the buffer.
unfoldable pub trim_end : Ibuf → Ibuf
unfolding back
trim_end s =
    let e = if s.cur_buf_pos == 0 then 0 else back s.buf (s.cur_buf_pos - 1) + 1 in
    record s { cur_buf_pos = e; buf = store s.buf e 0 }

-- `ibuf_trim`.
unfoldable pub ibuf_trim : Ibuf → Ibuf
unfolding skip shift trim_end
ibuf_trim s =
    let i = skip s.buf 0 s.cur_buf_pos in
    let n = s.cur_buf_pos - i in
    let s1 = record s { cur_buf_pos = n; buf = store (shift s.buf 0 i n) n 0 } in
    if ltb 0 i then (if n == 0 then s1 else trim_end s1) else trim_end s
