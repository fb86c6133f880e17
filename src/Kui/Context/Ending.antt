-- ===== src/Kui/Context/Ending.antt =====
-- The end of a search of lib/kui/kui.c: `kui_findkey` behind its main loop.
use cgdb.Base.{
  before_nul, ℕ, false, Option, none, some, List, [], ◌∷◌, ◌++◌, ◌≡◌, ◌∙◌, refl, ap, arith,
  Option-cases, inl, inr, ◌⊎◌, append-nil, sym,
}
use mathlib.Core.List.{reverse, reverse-cons, reverse-reverse}
use cgdb.Kui.Tree.{Node, Tree, TreeState, count, children}
use cgdb.Kui.Tree.Spec.{descend}
use cgdb.Kui.Tree.Match.{Tracks, state_at, state_of}
use cgdb.Kui.MapSet.{KuiMap, MapSet}
use cgdb.Kui.Munch.{munch, extend, munch_stuck}
use cgdb.Kui.Context.{
  Kuictx, is_matching, find_end, Found, key, map_found, error, prepend_each, update_buffer,
  finalize_all, was_map_found,
}
use cgdb.Kui.Context.Scan.{behind, Scanned}
use cgdb.Kui.Context.Buffer.{
  prepend_each-eq, prepend_value-eq, update_buffer_last, update_buffer_map, finalized,
}

abbrev pub first_key : List ℕ → Found × List ℕ
first_key [] = (error, [])
first_key (k ∷ q) = (key k, q)

abbrev pub expand : List ℕ → Option (KuiMap × List ℕ) → Found × List ℕ
expand all none = first_key all
expand all (some (m, rest)) = (map_found, before_nul m.literal_value ++ rest)

-- What one search does to the keys that are waiting.
abbrev pub longest_match : Node KuiMap → List ℕ → Found × List ℕ
longest_match root all = expand all (munch root all)

-- The end of the search, once the waiting keys were scanned.
pub end_expands :
    (root : Node KuiMap) (ks : List ℕ) (m : MapSet) (ctx : Kuictx) (s : List ℕ) (v : KuiMap)
    (ex : List ℕ)
    → Scanned root ks m ctx
    → was_map_found (finalized m) none ≡ some (some v)
    → munch root ks ≡ some (v, ex)
    → find_end ctx s ≡ (
      map_found,
      record ctx {
        map_sets = finalized m;
        buffer = before_nul v.literal_value ++ (ex ++ ctx.buffer);
      },
      s,
    )
unfolding find_end finalize_all
end_expands root ks m ctx s v ex sc w u = ground (arith, ap finalize_all sc.sets, w, buffered)
  where
    volatile : ctx.volatile_buffer ≡ reverse ex
    volatile = sc.extra ∙ ap (λ o. reverse (behind ks o)) u

    extras : prepend_each ctx.volatile_buffer ctx.buffer ≡ ex ++ ctx.buffer
    extras = rw volatile (rw (prepend_each-eq (reverse ex) ctx.buffer, reverse-reverse ex))

    buffered :
        update_buffer ctx.buffer ctx.volatile_buffer (some v)
        ≡ some (none, before_nul v.literal_value ++ (ex ++ ctx.buffer), ctx.volatile_buffer)
    buffered =
        update_buffer_map ctx.buffer ctx.volatile_buffer v
        ∙ ap (λ b. some (none, b, ctx.volatile_buffer))
            (prepend_value-eq (before_nul v.literal_value) _
              ∙ ap (λ b. before_nul v.literal_value ++ b) extras)

pub end_returns :
    (root : Node KuiMap) (k : ℕ) (ks : List ℕ) (m : MapSet) (ctx : Kuictx) (s : List ℕ)
    → Scanned root (k ∷ ks) m ctx
    → was_map_found (finalized m) none ≡ some none
    → munch root (k ∷ ks) ≡ none
    → find_end ctx s ≡ (
      key k,
      record ctx {
        map_sets = finalized m;
        buffer = ks ++ ctx.buffer;
        volatile_buffer = reverse ks;
      },
      s,
    )
unfolding find_end finalize_all
end_returns root k ks m ctx s sc w u = ground (arith, ap finalize_all sc.sets, w, buffered)
  where
    volatile : ctx.volatile_buffer ≡ reverse ks ++ k ∷ []
    volatile = sc.extra ∙ ap (λ o. reverse (behind (k ∷ ks) o)) u ∙ reverse-cons k ks

    extras : prepend_each (reverse ks) ctx.buffer ≡ ks ++ ctx.buffer
    extras = rw (prepend_each-eq (reverse ks) ctx.buffer, reverse-reverse ks)

    buffered :
        update_buffer ctx.buffer ctx.volatile_buffer none
        ≡ some (some k, ks ++ ctx.buffer, reverse ks)
    buffered = rw volatile (
        update_buffer_last ctx.buffer (reverse ks) k
        ∙ ap (λ b. some (some k, b, reverse ks)) extras)

-- What is left when the scan has stopped decides the longest match of all the keys.
leaf_of :
    (c : Node KuiMap) {s : TreeState}
    → state_of (some c) ≡ s
    → is_matching s ≡ false
    → count (children c) ≡ 0
leaf_of c e h = ground arith

settled-stuck :
    (root : Node KuiMap) (ks : List ℕ) (t : Tree KuiMap)
    → t.root ≡ root
    → Tracks t ks
    → is_matching t.state ≡ false
    → (descend root ks ≡ none)
      ⊎ ((c : Node KuiMap) × (descend root ks ≡ some c) × (count (children c) ≡ 0))
settled-stuck root [] t r v h = absurd (cc (v.phase, h))
settled-stuck root (k ∷ ks) t r v h = elim (Option-cases (descend root (k ∷ ks))) [
  | inl e ↦ inl e
  | inr (c, e) ↦
      inr (c, e, leaf_of c (sym (v.phase ∙ ap (λ n. state_at n (k ∷ ks)) r ∙ ap state_of e)) h)
]

extend-nil : (o : Option (KuiMap × List ℕ)) → extend [] o ≡ o
extend-nil none = refl
extend-nil (some (m, ks)) = rw (append-nil ks)

pub munch_settled :
    (root : Node KuiMap) (ks rest : List ℕ) (t : Tree KuiMap)
    → t.root ≡ root
    → Tracks t ks
    → (rest ≡ []) ⊎ (is_matching t.state ≡ false)
    → munch root (ks ++ rest) ≡ extend rest (munch root ks)
munch_settled root ks rest t r v h = elim h [
  | inl e ↦ rw e (rw (append-nil ks, extend-nil (munch root ks)))
  | inr e ↦ munch_stuck root ks rest (settled-stuck root ks t r v e)
]

-- The outcome of a search over the keys `all`: what it returns, the keys that are waiting after
-- it, and the map set, whose tree has the same root.
pub record Outcome (root : Node KuiMap) (all : List ℕ) (out : Found × Kuictx × List ℕ)
    : Type 0 where
  pub result : (out.0, out.1.buffer ++ out.2) ≡ longest_match root all
  pub m : MapSet
  pub sets : out.1.map_sets ≡ m ∷ []
  pub same_root : m.ktree.root ≡ root

pub end_fails :
    (root : Node KuiMap) (m : MapSet) (ctx : Kuictx) (s : List ℕ)
    → Scanned root [] m ctx
    → was_map_found (finalized m) none ≡ some none
    → find_end ctx s ≡ (error, record ctx { map_sets = finalized m }, s)
unfolding find_end finalize_all
end_fails root m ctx s sc w = ground (arith, ap finalize_all sc.sets, w, buffered)
  where
    buffered : update_buffer ctx.buffer ctx.volatile_buffer none ≡ none
    buffered = rw sc.extra (unfold update_buffer in refl)
