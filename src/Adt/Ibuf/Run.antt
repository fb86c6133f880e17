-- ===== src/Adt/Ibuf/Run.antt =====
-- lib/adt/ibuf.c: buffers that are made and changed by its operations only.
use cgdb.Base.{
  free_of, delchar, before_nul, ℕ, zero, suc, ◌+◌, ◌<◌, true, List, [], ◌∷◌, ◌++◌, ◌≡◌, refl, ◌∙◌,
  sym, ap, arith, append-nil, append_assoc,
}
use cgdb.Adt.Ibuf.{
  Ibuf, read, ibuf_init, ibuf_clear, ibuf_addchar, ibuf_add, ibuf_delchar, ibuf_trim, ibuf_get,
  ibuf_dup,
}
use cgdb.Adt.Ibuf.Text.{contents, InBounds, ibuf_init-InBounds, addchar_lem, clear_lem, delchar_lem}
use cgdb.Adt.Ibuf.Trim.{trim_text, trim_lem}

pub data Op : Type 0 where
  addchar : ℕ → Op
  delete clear trim : Op

abbrev pub run : Ibuf → List Op → Ibuf
run s [] = s
run s (addchar c ∷ ops) = run (ibuf_addchar s c) ops
run s (delete ∷ ops) = run (ibuf_delchar s) ops
run s (clear ∷ ops) = run (ibuf_clear s) ops
run s (trim ∷ ops) = run (ibuf_trim s) ops

-- The same on a plain text.
abbrev pub run_text : List ℕ → List Op → List ℕ
run_text t [] = t
run_text t (addchar c ∷ ops) = run_text (t ++ c ∷ []) ops
run_text t (delete ∷ ops) = run_text (delchar t) ops
run_text t (clear ∷ ops) = run_text [] ops
run_text t (trim ∷ ops) = run_text (trim_text t) ops

abbrev pub Holds : List ℕ → Ibuf → Type 0
Holds t s = InBounds s × (contents s ≡ t)

run-Holds : (ops : List Op) (s : Ibuf) (t : List ℕ) → Holds t s → Holds (run_text t ops) (run s ops)
run-Holds [] s t h = h
run-Holds (addchar c ∷ ops) s t (w, e) =
    let (w', e') = addchar_lem s c w in
    run-Holds ops (ibuf_addchar s c) (t ++ c ∷ []) (w', e' ∙ ap (λ x. x ++ c ∷ []) e)
run-Holds (delete ∷ ops) s t (w, e) =
    let (w', e') = delchar_lem s w in
    run-Holds ops (ibuf_delchar s) (delchar t) (w', e' ∙ ap delchar e)
run-Holds (clear ∷ ops) s t (w, e) = run-Holds ops (ibuf_clear s) [] (clear_lem s w)
run-Holds (trim ∷ ops) s t (w, e) =
    let (w', e') = trim_lem s w in
    run-Holds ops (ibuf_trim s) (trim_text t) (w', e' ∙ ap trim_text e)

-- However a buffer is changed by characters added and deleted, by clearing and by trimming, it holds
-- the text that the same changes make of the empty text, the 0 stands behind it, and all of it lies
-- within the memory that was allocated.
pub run_init-Holds :
    (junk : ℕ → ℕ) (ops : List Op) → Holds (run_text [] ops) (run (ibuf_init junk) ops)
run_init-Holds junk ops = run-Holds ops (ibuf_init junk) [] (ibuf_init-InBounds junk, at_start)
  where
    at_start : contents (ibuf_init junk) ≡ []
    at_start = unfold ibuf_init in refl

add-Holds : (s : Ibuf) (t d : List ℕ) → Holds t s → Holds (t ++ d) (ibuf_add s d)
unfolding ibuf_add
add-Holds s t [] (w, e) = (w, e ∙ sym (append-nil t))
add-Holds s t (c ∷ d) (w, e) =
    let (w', e') = addchar_lem s c w in
    let (w2, e2) =
      add-Holds (ibuf_addchar s c) (t ++ c ∷ []) d (w', e' ∙ ap (λ x. x ++ c ∷ []) e) in
    (w2, e2 ∙ append_assoc t (c ∷ []) d)

before_nul-read :
    (b : ℕ → ℕ) (i n m : ℕ)
    → free_of 0 (read b i n) ≡ true
    → b (i + n) ≡ 0
    → n < m
    → before_nul (read b i m) ≡ read b i n
before_nul-read b i n zero f z l = ground (arith, l)
before_nul-read b i zero (suc m) f z l =
    let here : i + 0 ≡ i = omega arith in
    let at : b i ≡ 0 = sym (ap b here) ∙ z in ground (arith, at)
before_nul-read b i (suc n) (suc m) f z l =
    let next : i + suc n ≡ suc i + n = omega arith in
    let behind : b (suc i + n) ≡ 0 = sym (ap b next) ∙ z in
    ground (arith, before_nul-read b (suc i) n m (ground arith) behind (omega (arith, l)))

-- The string of a buffer is its text, and a copy holds the same, when no 0 was added.
pub dup-Holds :
    (junk : ℕ → ℕ) (s : Ibuf)
    → InBounds s
    → free_of 0 (contents s) ≡ true
    → (ibuf_get s ≡ contents s) × Holds (contents s) (ibuf_dup junk s)
unfolding ibuf_dup ibuf_get
dup-Holds junk s (w1, w2, w3, w4, w5) f =
    let start : 0 + s.cur_buf_pos ≡ s.cur_buf_pos = omega arith in
    let got : before_nul (read s.buf 0 s.allocated) ≡ contents s =
      before_nul-read s.buf 0 s.cur_buf_pos s.allocated f (ap s.buf start ∙ w5)
        (omega (arith, w2, w3)) in
    let (w, e) =
      add-Holds (ibuf_init junk) [] (before_nul (read s.buf 0 s.allocated))
        (ibuf_init-InBounds junk, refl) in
    (got, (w, e ∙ got))
