-- ===== src/Sources/Found.antt =====
-- cgdb/sources.c: the node that a loop over the list finds, after changes of the list.
use cgdb.Base.{
  Bool, true, false, List, [], ◌∷◌, Option, none, some, map, ◌≡◌, refl, ap, inl, inr, Bool-cases,
}
use cgdb.Sources.{Source, find_first, change_first}

mapped : (Source → Source) → Option Source → Option Source
mapped f none = none
mapped f (some n) = some (f n)

pub find_first-map :
    (test : Source → Bool) (f : Source → Source) (ns : List Source) (n : Source)
    → ((m : Source) → test (f m) ≡ test m)
    → find_first test ns ≡ some n
    → find_first test (map f ns) ≡ some (f n)
unfolding mapped
find_first-map test f [] n k h = absurd (cc h)
find_first-map test f (m ∷ ns) n k h = elim (Bool-cases (test m)) [
  | inl t ↦ rw (k m, t) (ap (mapped f) (rw t at h))
  | inr t ↦ rw (k m, t) (find_first-map test f ns n k (rw t at h))
]

pub find_first-change_first :
    (test : Source → Bool) (f : Source → Source) (ns : List Source) (n : Source)
    → ((m : Source) → test (f m) ≡ test m)
    → find_first test ns ≡ some n
    → find_first test (change_first test f ns) ≡ some (f n)
unfolding mapped
find_first-change_first test f [] n k h = absurd (cc h)
find_first-change_first test f (m ∷ ns) n k h = elim (Bool-cases (test m)) [
  | inl t ↦ rw (t, k m, t) (ap (mapped f) (rw t at h))
  | inr t ↦ rw (t, t) (find_first-change_first test f ns n k (rw t at h))
]

-- A change of a node that another test does not look for.
pub find_first_other :
    (test other : Source → Bool) (f : Source → Source) (ns : List Source)
    → ((m : Source) → other m ≡ true → test m ≡ false)
    → ((m : Source) → test (f m) ≡ test m)
    → find_first test (change_first other f ns) ≡ find_first test ns
find_first_other test other f [] a k = refl
find_first_other test other f (m ∷ ns) a k = elim (Bool-cases (other m)) [
  | inl t ↦ rw (t, k m, a m t) refl
  | inr t ↦ elim (Bool-cases (test m)) [
    | inl u ↦ rw (t, u) refl
    | inr u ↦ rw (t, u) (find_first_other test other f ns a k)
  ]
]
