-- ===== src/Adt/Ibuf/Memory.antt =====
-- The memory behind lib/adt/ibuf.c: what a store and the loops of `ibuf_trim` leave to be read.
use cgdb.Base.{
  List-cases, ℕ, zero, suc, ◌+◌, ◌-◌, ◌≤◌, ◌<◌, false, List, [], ◌∷◌, ◌++◌, if◌then◌else◌, ◌≡◌,
  refl, ◌∙◌, sym, ap, arith, Bool-cases, inl, inr, ◌⊎◌,
}
use cgdb.Adt.Ibuf.{store, read, isspace, skip, shift, back}

pub read-store :
    (b : ℕ → ℕ) (k v i n : ℕ) → (k < i) ⊎ (i + n ≤ k) → read (store b k v) i n ≡ read b i n
read-store b k v i zero o = refl
read-store b k v i (suc n) o = ground (arith, read-store b k v (suc i) n (ground arith))

read_snoc : (b : ℕ → ℕ) (i n : ℕ) → read b i (suc n) ≡ read b i n ++ b (i + n) ∷ []
read_snoc b i zero = ap (λ k. b k ∷ []) (omega arith)
read_snoc b i (suc n) =
    let moved : suc i + n ≡ i + suc n = omega arith in
    ap (λ r. b i ∷ r) (read_snoc b (suc i) n ∙ ap (λ k. read b (suc i) n ++ b k ∷ []) moved)

pub read_last : (b : ℕ → ℕ) (n : ℕ) → read b 0 (suc n) ≡ read b 0 n ++ b n ∷ []
read_last b n =
    let same : 0 + n ≡ n = omega arith in read_snoc b 0 n ∙ ap (λ k. read b 0 n ++ b k ∷ []) same

abbrev pub drop_spaces : List ℕ → List ℕ
drop_spaces [] = []
drop_spaces (c ∷ cs) = if isspace c then drop_spaces cs else c ∷ cs

pub skip_bounds : (b : ℕ → ℕ) (i n : ℕ) → (i ≤ skip b i n) × (skip b i n ≤ i + n)
unfolding skip
skip_bounds b i zero = ground arith
skip_bounds b i (suc n) = ground (arith, skip_bounds b (suc i) n)

pub drop_spaces-read :
    (b : ℕ → ℕ) (i n : ℕ) → drop_spaces (read b i n) ≡ read b (skip b i n) (i + n - skip b i n)
unfolding skip
drop_spaces-read b i zero =
    let none_left : zero ≡ i + zero - i = omega arith in ap (read b i) none_left
drop_spaces-read b i (suc n) =
    let same : suc i + n - skip b (suc i) n ≡ i + suc n - skip b (suc i) n = omega arith in
    let all : suc n ≡ i + suc n - i = omega arith in
    elim (Bool-cases (isspace (b i))) [
      | inl h ↦ rw h (drop_spaces-read b (suc i) n ∙ ap (read b (skip b (suc i) n)) same)
      | inr h ↦ rw h (ap (read b i) all)
    ]

-- The character where the first loop ends is no space.
pub skip_stops : (b : ℕ → ℕ) (i n : ℕ) → skip b i n < i + n → isspace (b (skip b i n)) ≡ false
unfolding skip
skip_stops b i zero l = ground arith
skip_stops b i (suc n) l = elim (Bool-cases (isspace (b i))) [
  | inl h ↦ rw h (skip_stops b (suc i) n (ground (arith, h, l)))
  | inr h ↦ rw h h
]

shift_below : (b : ℕ → ℕ) (j i n k : ℕ) → k < j → shift b j i n k ≡ b k
unfolding shift
shift_below b j i zero k l = refl
shift_below b j i (suc n) k l =
    shift_below (store b j (b i)) (suc j) (suc i) n k (omega arith) ∙ ground arith

pub read-shift : (b : ℕ → ℕ) (j i n : ℕ) → j ≤ i → read (shift b j i n) j n ≡ read b i n
unfolding shift
read-shift b j i zero l = refl
read-shift b j i (suc n) l =
    let m = store b j (b i) in
    let first : shift m (suc j) (suc i) n j ≡ b i =
      shift_below m (suc j) (suc i) n j (omega arith) ∙ ground arith in
    let others : read (shift m (suc j) (suc i) n) (suc j) n ≡ read b (suc i) n =
      read-shift m (suc j) (suc i) n (omega arith)
      ∙ read-store b j (b i) (suc i) n (inl (omega arith)) in
    ground (arith, first, others)

abbrev pub drop_last_spaces : List ℕ → List ℕ
drop_last_spaces [] = []
drop_last_spaces (c ∷ cs) =
    let r = drop_last_spaces cs in
    elim r [ [] ↦ if isspace c then [] else c ∷ [] | d ∷ ds ↦ c ∷ d ∷ ds ]

drop_last_spaces_snoc :
    (xs : List ℕ) (c : ℕ)
    → drop_last_spaces (xs ++ c ∷ []) ≡ (if isspace c then drop_last_spaces xs else xs ++ c ∷ [])
drop_last_spaces_snoc [] c = ground arith
drop_last_spaces_snoc (x ∷ xs) c = elim (Bool-cases (isspace c)) [
  | inl h ↦ ground (arith, h, drop_last_spaces_snoc xs c)
  | inr h ↦ elim (List-cases xs) [
    | inl e ↦ ground (arith, h, e)
    | inr (y, ys, e) ↦ ground (arith, h, e, drop_last_spaces_snoc xs c)
  ]
]

pub drop_last_spaces-read :
    (b : ℕ → ℕ) (n : ℕ)
    → isspace (b 0) ≡ false
    → drop_last_spaces (read b 0 (suc n)) ≡ read b 0 (suc (back b n))
unfolding back
drop_last_spaces-read b zero z = ground (arith, z)
drop_last_spaces-read b (suc n) z =
    let h : drop_last_spaces (read b 0 (suc (suc n))) ≡ (
        if isspace (b (suc n))
        then drop_last_spaces (read b 0 (suc n))
        else read b 0 (suc n) ++ b (suc n) ∷ []) =
      ap drop_last_spaces (read_last b (suc n))
      ∙ drop_last_spaces_snoc (read b 0 (suc n)) (b (suc n)) in
    let ih = drop_last_spaces-read b n z in
    elim (Bool-cases (isspace (b (suc n)))) [
      | inl e ↦ h ∙ rw e ih
      | inr e ↦ h ∙ rw e (sym (read_last b (suc n)))
    ]
