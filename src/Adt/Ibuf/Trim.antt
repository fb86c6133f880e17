-- ===== src/Adt/Ibuf/Trim.antt =====
-- `ibuf_trim` of lib/adt/ibuf.c on the characters of a buffer.
use cgdb.Base.{
  ℕ, zero, suc, ◌+◌, ◌-◌, ◌≤◌, false, List, [], ◌∷◌, ltb, ◌==◌, ◌≡◌, ◌≢◌, refl, ◌∙◌, sym, ap, arith,
  Bool-cases, inl, inr, ◌⊎◌, ==→≡, ==_false→≢, subst,
}
use cgdb.Adt.Ibuf.{Ibuf, read, isspace, skip, shift, back, ibuf_trim, trim_end}
use cgdb.Adt.Ibuf.Memory.{
  drop_spaces, drop_spaces-read, skip_stops, read-shift, drop_last_spaces, drop_last_spaces-read,
}
use cgdb.Adt.Ibuf.Text.{contents, InBounds, cut_at, cut_lem}

-- The text without the spaces at its ends.
abbrev pub trim_text : List ℕ → List ℕ
trim_text t = drop_last_spaces (drop_spaces t)

back_bound : (b : ℕ → ℕ) (n : ℕ) → back b n ≤ n
unfolding back
back_bound b zero = ground arith
back_bound b (suc n) = ground (arith, back_bound b n)

abbrev head : List ℕ → ℕ
head [] = 0
head (c ∷ cs) = c

trim_end_lem :
    (s : Ibuf)
    → InBounds s
    → (s.cur_buf_pos ≡ 0) ⊎ (isspace (head (contents s)) ≡ false)
    → InBounds (trim_end s) × (contents (trim_end s) ≡ drop_last_spaces (contents s))
unfolding trim_end
trim_end_lem s w o = elim (Bool-cases (s.cur_buf_pos == 0)) [
  | inl h ↦
      let empty : s.cur_buf_pos ≡ 0 = ==→≡ s.cur_buf_pos 0 h in
      let (i, c) = cut_lem s 0 s.buf w (omega arith) in
      rw h (i, c ∙ sym (ap (λ n. drop_last_spaces (read s.buf 0 n)) empty))
  | inr h ↦
      let p = s.cur_buf_pos - 1 in
      let e = back s.buf p + 1 in
      let some_left : s.cur_buf_pos ≢ 0 = ==_false→≢ s.cur_buf_pos 0 h in
      let whole : s.cur_buf_pos ≡ suc p = omega (arith, some_left) in
      let within : e ≤ s.cur_buf_pos = omega (arith, back_bound s.buf p, whole) in
      let next : e ≡ suc (back s.buf p) = omega arith in
      let at_head : head (contents s) ≡ s.buf 0 = ap (λ n. head (read s.buf 0 n)) whole in
      let first : isspace (s.buf 0) ≡ false = ground (arith, o, some_left, at_head) in
      let (i, c) = cut_lem s e s.buf w within in
      rw h (
        i,
        c
            ∙ ap (read s.buf 0) next
            ∙ sym (
                ap (λ n. drop_last_spaces (read s.buf 0 n)) whole
                ∙ drop_last_spaces-read s.buf p first),
      )
]

abbrev Trimmed : Ibuf → Ibuf → Type 0
Trimmed s r = InBounds r × (contents r ≡ trim_text (contents s))

pub trim_lem :
    (s : Ibuf)
    → InBounds s
    → InBounds (ibuf_trim s) × (contents (ibuf_trim s) ≡ trim_text (contents s))
unfolding ibuf_trim
trim_lem s w =
    let i = skip s.buf 0 s.cur_buf_pos in
    let n = s.cur_buf_pos - i in
    let s1 = cut_at n (shift s.buf 0 i n) s in
    let (w1, c1) = cut_lem s n (shift s.buf 0 i n) w (omega arith) in
    let count : 0 + s.cur_buf_pos - i ≡ n = omega arith in
    let dropped : drop_spaces (contents s) ≡ read s.buf i n =
      drop_spaces-read s.buf 0 s.cur_buf_pos ∙ ap (read s.buf i) count in
    let moved : contents s1 ≡ read s.buf i n = c1 ∙ read-shift s.buf 0 i n (omega arith) in
    -- Where the first loop ends, the text is used up or goes on with no space.
    let stops : (n ≡ 0) ⊎ (isspace (head (read s.buf i n)) ≡ false) = elim (Bool-cases (n == 0)) [
      | inl h ↦ inl (==→≡ n 0 h)
      | inr h ↦
          let some_left : n ≢ 0 = ==_false→≢ n 0 h in
          let whole : n ≡ suc (n - 1) = omega (arith, some_left) in
          let at_head : head (read s.buf i n) ≡ s.buf i = ap (λ k. head (read s.buf i k)) whole in
          inr (ap isspace at_head ∙ skip_stops s.buf 0 s.cur_buf_pos (omega (arith, some_left)))
    ] in
    elim (Bool-cases (ltb 0 i)) [
      | inl h ↦ elim (Bool-cases (n == 0)) [
        | inl z ↦
            let empty : n ≡ 0 = ==→≡ n 0 z in
            let e : ibuf_trim s ≡ s1 = rw (h, z) refl in
            subst (Trimmed s) {x = s1} {y = ibuf_trim s} (sym e) (
              w1,
              moved
                  ∙ ap (read s.buf i) empty
                  ∙ sym (ap drop_last_spaces (dropped ∙ ap (read s.buf i) empty)),
            )
        | inr z ↦
            let e : ibuf_trim s ≡ trim_end s1 = rw (h, z) refl in
            let o : (n ≡ 0) ⊎ (isspace (head (contents s1)) ≡ false) = elim stops [
              | inl k ↦ inl k
              | inr k ↦ inr (ap (λ t. isspace (head t)) moved ∙ k)
            ] in
            let (w2, c2) = trim_end_lem s1 w1 o in
            subst (Trimmed s) {x = trim_end s1} {y = ibuf_trim s} (sym e)
              (w2, c2 ∙ ap drop_last_spaces (moved ∙ sym dropped))
      ]
      | inr h ↦
          let e : ibuf_trim s ≡ trim_end s = rw h refl in
          let start : i ≡ 0 = ground (arith, h) in
          let all : n ≡ s.cur_buf_pos = omega (arith, start) in
          let same : read s.buf i n ≡ contents s =
            ap (λ k. read s.buf k n) start ∙ ap (read s.buf 0) all in
          let o : (s.cur_buf_pos ≡ 0) ⊎ (isspace (head (contents s)) ≡ false) = elim stops [
            | inl k ↦ inl (sym all ∙ k)
            | inr k ↦ inr (sym (ap (λ t. isspace (head t)) same) ∙ k)
          ] in
          let (w2, c2) = trim_end_lem s w o in
          subst (Trimmed s) {x = trim_end s} {y = ibuf_trim s} (sym e)
            (w2, c2 ∙ ap drop_last_spaces (sym (dropped ∙ same)))
    ]
