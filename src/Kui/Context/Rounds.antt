-- ===== src/Kui/Context/Rounds.antt =====
-- `kui_getkey` of lib/kui/kui.c: searches are repeated for as long as they find a map.
use cgdb.Base.{
  before_nul, ℕ, zero, suc, ◌<◌, some, List, [], ◌∷◌, ◌++◌, ◌≡◌, ◌∙◌, refl, ap, arith, inl, inr,
  ◌⊎◌, sym, length, subst,
}
use cgdb.Kui.Tree.{Node}
use cgdb.Kui.Tree.Spec.{IsFull}
use cgdb.Kui.MapSet.{KuiMap, MapSet}
use cgdb.Kui.Munch.{munch}
use cgdb.Kui.Context.{Kuictx, findkey, getkey, Found, key, map_found, error, no_fuel}
use cgdb.Kui.Context.Scan.{stream}
use cgdb.Kui.Context.Ending.{longest_match, Outcome}
use cgdb.Kui.Context.Refine.{findkey-longest_match}

-- Longest matches, repeated on the keys that they leave while they replace a mapped prefix.
abbrev pub match_rounds : ℕ → Node KuiMap → List ℕ → Found × List ℕ
match_rounds zero root all = (no_fuel, all)
match_rounds (suc rounds) root all =
    let again = match_rounds rounds root (longest_match root all).1 in
    elim (longest_match root all).0 [ map_found ↦ again | other ↦ longest_match root all ]

-- The fuel of a search is more than the keys that wait in any of the rounds.
abbrev pub Enough : ℕ → ℕ → Node KuiMap → List ℕ → Type 0
Enough fuel zero root all = Unit {0}
Enough fuel (suc rounds) root all =
    (length all < fuel) × Enough fuel rounds root (longest_match root all).1

getkey_again :
    (rounds fuel : ℕ) (ctx ctx' : Kuictx) (s s' : List ℕ)
    → findkey stream fuel ctx s ≡ (map_found, ctx', s')
    → getkey stream (suc rounds) fuel ctx s ≡ getkey stream rounds fuel ctx' s'
unfolding getkey
getkey_again rounds fuel ctx ctx' s s' e = ground (arith, e)

abbrev EndsWith : Found → Type 0
EndsWith map_found = ⊥
EndsWith _ = Unit {0}

getkey_ends :
    (rounds fuel : ℕ) (ctx ctx' : Kuictx) (s s' : List ℕ) (r : Found)
    → EndsWith r
    → findkey stream fuel ctx s ≡ (r, ctx', s')
    → getkey stream (suc rounds) fuel ctx s ≡ (r, ctx', s')
unfolding getkey
getkey_ends rounds fuel ctx ctx' s s' (key k) h e = ground (arith, e)
getkey_ends rounds fuel ctx ctx' s s' map_found h e = elim h [ ]
getkey_ends rounds fuel ctx ctx' s s' error h e = ground (arith, e)
getkey_ends rounds fuel ctx ctx' s s' no_fuel h e = ground (arith, e)

found_cases : (r : Found) → (r ≡ map_found) ⊎ EndsWith r
found_cases (key k) = inr tt
found_cases map_found = inl refl
found_cases error = inr tt
found_cases no_fuel = inr tt

match_rounds_again :
    (rounds : ℕ) (root : Node KuiMap) (all : List ℕ)
    → (longest_match root all).0 ≡ map_found
    → match_rounds (suc rounds) root all ≡ match_rounds rounds root (longest_match root all).1
match_rounds_again rounds root all e = ground (arith, e)

match_rounds_ends :
    (rounds : ℕ) (root : Node KuiMap) (all : List ℕ) (r : Found)
    → EndsWith r
    → (longest_match root all).0 ≡ r
    → match_rounds (suc rounds) root all ≡ longest_match root all
match_rounds_ends rounds root all (key k) h e = ground (arith, e)
match_rounds_ends rounds root all map_found h e = elim h [ ]
match_rounds_ends rounds root all error h e = ground (arith, e)
match_rounds_ends rounds root all no_fuel h e = ground (arith, e)

-- What a caller sees of a search: what it returns and the keys that are waiting.
abbrev pub seen : Found × Kuictx × List ℕ → Found × List ℕ
seen out = (out.0, out.1.buffer ++ out.2)

-- With one map set whose leaves are all mapped, and enough fuel, `kui_getkey` returns what repeated
-- longest matches return, and leaves the keys waiting that they leave.
pub getkey-match_rounds :
    (rounds fuel : ℕ) (root : Node KuiMap) (m : MapSet) (ctx : Kuictx) (s : List ℕ)
    → ctx.map_sets ≡ m ∷ []
    → m.ktree.root ≡ root
    → IsFull root
    → Enough fuel rounds root (ctx.buffer ++ s)
    → seen (getkey stream rounds fuel ctx s) ≡ match_rounds rounds root (ctx.buffer ++ s)
getkey-match_rounds zero fuel root m ctx s e t f h = unfold getkey in refl
getkey-match_rounds (suc rounds) fuel root m ctx s e t f h =
    let all = ctx.buffer ++ s in
    let out = findkey stream fuel ctx s in
    let o : Outcome root all out =
      subst (λ n. Outcome n all out) t
        (findkey-longest_match fuel m ctx s e (subst IsFull (sym t) f) h.0) in
    let first : (longest_match root all).0 ≡ out.0 = ap (λ r. r.0) (sym o.result) in
    let left : (longest_match root all).1 ≡ out.1.buffer ++ out.2 = ap (λ r. r.1) (sym o.result) in
    elim (found_cases out.0) [
      | inl q ↦
          ap seen (getkey_again rounds fuel ctx out.1 s out.2 (ap (λ r. (r, out.1, out.2)) q))
          ∙ getkey-match_rounds rounds fuel root o.m out.1 out.2 o.sets o.same_root f
              (subst (Enough fuel rounds root) left h.1)
          ∙ ap (match_rounds rounds root) (sym left)
          ∙ sym (match_rounds_again rounds root all (first ∙ q))
      | inr q ↦
          ap seen (getkey_ends rounds fuel ctx out.1 s out.2 out.0 q refl)
          ∙ o.result
          ∙ sym (match_rounds_ends rounds root all out.0 q first)
    ]

-- A mapping whose value brings back the very keys that it was found in is found again in every
-- round: `kui_getkey` does not return, however many rounds it is given.
pub getkey_never_returns :
    (rounds fuel : ℕ) (m : MapSet) (ctx : Kuictx) (s rest : List ℕ) (v : KuiMap)
    → ctx.map_sets ≡ m ∷ []
    → IsFull m.ktree.root
    → length (ctx.buffer ++ s) < fuel
    → munch m.ktree.root (ctx.buffer ++ s) ≡ some (v, rest)
    → before_nul v.literal_value ++ rest ≡ ctx.buffer ++ s
    → (getkey stream rounds fuel ctx s).0 ≡ no_fuel
getkey_never_returns rounds fuel m ctx s rest v e f h u b =
    ap (λ r. r.0)
      (getkey-match_rounds rounds fuel m.ktree.root m ctx s e refl f (enough rounds) ∙ stays rounds)
  where
    root : Node KuiMap
    root = m.ktree.root

    all : List ℕ
    all = ctx.buffer ++ s

    same : longest_match root all ≡ (map_found, all)
    same = rw u (ap (λ r. (map_found, r)) b)

    enough : (rounds : ℕ) → Enough fuel rounds root all
    enough zero = tt
    enough (suc n) = (h, subst (Enough fuel n root) (sym (ap (λ r. r.1) same)) (enough n))

    stays : (rounds : ℕ) → match_rounds rounds root all ≡ (no_fuel, all)
    stays zero = refl
    stays (suc n) =
        match_rounds_again n root all (ap (λ r. r.0) same)
        ∙ ap (λ r. match_rounds n root r.1) same
        ∙ stays n
