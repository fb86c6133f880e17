-- ===== src/Kui/Context/Refine.antt =====
-- `kui_findkey` of lib/kui/kui.c over one map set, against longest-match reading.
use cgdb.Base.{
  before_nul, ℕ, ◌<◌, true, false, none, some, List, [], ◌∷◌, ◌++◌, ◌≡◌, ◌∙◌, refl, ap, arith, inl,
  inr, ◌⊎◌, append_assoc, sym, length, subst,
}
use cgdb.Kui.Tree.{Node, Tree, macro_value, finalize_state, reset_state}
use cgdb.Kui.Tree.Spec.{longest, IsFull}
use cgdb.Kui.Tree.Match.{state_at, reset_state-Tracks}
use cgdb.Kui.MapSet.{KuiMap, MapSet}
use cgdb.Kui.Munch.{munch, extend, munch-longest}
use cgdb.Kui.Context.{
  Kuictx, is_matching, is_found, with_tree, find_loop, find_end, findkey, done, LoopEnd, key,
  map_found, error, was_map_found, reset_all,
}
use cgdb.Kui.Context.Scan.{stream, Scanned, Stopped, loop_scans}
use cgdb.Kui.Context.Buffer.{finalized, finds_map, finds_none, found_needs_map}
use cgdb.Kui.Context.Ending.{
  Outcome, first_key, expand, longest_match, end_expands, end_returns, munch_settled, end_fails,
}

root-finalize : (t : Tree KuiMap) → (finalize_state t).root ≡ t.root
unfolding finalize_state
root-finalize t = ground arith

module _ (root : Node KuiMap) (m : MapSet) (ctx : Kuictx) (s : List ℕ) where
  finds_none_at :
      (ks : List ℕ)
      → IsFull root
      → Scanned root ks m ctx
      → longest root ks ≡ none
      → was_map_found (finalized m) none ≡ some none
  finds_none_at ks f sc l = finds_none m ks sc.tracks (ap (λ n. longest n ks) sc.same_root ∙ l) (
      ap is_found (sc.tracks.phase ∙ ap (λ n. state_at n ks) sc.same_root)
      ∙ found_needs_map root ks f l)

  munched :
      (ks all : List ℕ)
      → Scanned root ks m ctx
      → all ≡ ks ++ (ctx.buffer ++ s)
      → (ctx.buffer ++ s ≡ []) ⊎ (is_matching m.ktree.state ≡ false)
      → munch root all ≡ extend (ctx.buffer ++ s) (munch root ks)
  munched ks all sc sp se =
      ap (λ a. munch root a) sp
      ∙ munch_settled root ks (ctx.buffer ++ s) m.ktree sc.same_root sc.tracks se

  none_found :
      (ks all : List ℕ)
      → IsFull root
      → Scanned root ks m ctx
      → all ≡ ks ++ (ctx.buffer ++ s)
      → (ctx.buffer ++ s ≡ []) ⊎ (is_matching m.ktree.state ≡ false)
      → longest root ks ≡ none
      → munch root ks ≡ none
      → Outcome root all (find_end ctx s)
  none_found [] all f sc sp se l u = elim se [
    | inr h ↦ absurd (cc (sc.tracks.phase, h))
    | inl e ↦
        subst (Outcome root all) (sym (end_fails root m ctx s sc (finds_none_at [] f sc l)))
          (record {
            result = ap (λ r. (error, r)) e ∙ sym (ap (longest_match root) (sp ∙ e));
            m = with_tree m (finalize_state m.ktree);
            sets = refl;
            same_root = root-finalize m.ktree ∙ sc.same_root;
          })
  ]
  none_found (k ∷ ks) all f sc sp se l u =
      subst (Outcome root all)
        (sym (end_returns root k ks m ctx s sc (finds_none_at (k ∷ ks) f sc l) u))
        (record {
          result =
              ap (λ r. (key k, r)) (append_assoc ks ctx.buffer s)
              ∙ ap first_key (sym sp)
              ∙ sym (
                  ap (expand all)
                    (munched (k ∷ ks) all sc sp se ∙ ap (extend (ctx.buffer ++ s)) u));
          m = with_tree m (finalize_state m.ktree);
          sets = refl;
          same_root = root-finalize m.ktree ∙ sc.same_root;
        })

  map_is_found :
      (ks all : List ℕ) (c : Node KuiMap) (v : KuiMap) (ex : List ℕ)
      → Scanned root ks m ctx
      → all ≡ ks ++ (ctx.buffer ++ s)
      → (ctx.buffer ++ s ≡ []) ⊎ (is_matching m.ktree.state ≡ false)
      → longest root ks ≡ some c
      → macro_value c ≡ some v
      → munch root ks ≡ some (v, ex)
      → Outcome root all (find_end ctx s)
  map_is_found ks all c v ex sc sp se l e u =
      subst (Outcome root all)
        (sym (
          end_expands root ks m ctx s v ex sc
            (finds_map m ks sc.tracks (ap (λ n. longest n ks) sc.same_root ∙ l) e) u))
        (record {
          result =
              ap (λ r. (map_found, r))
                (append_assoc (before_nul v.literal_value) (ex ++ ctx.buffer) s
                  ∙ ap (λ r. before_nul v.literal_value ++ r) (append_assoc ex ctx.buffer s))
              ∙ sym (ap (expand all) (munched ks all sc sp se ∙ ap (extend (ctx.buffer ++ s)) u));
          m = with_tree m (finalize_state m.ktree);
          sets = refl;
          same_root = root-finalize m.ktree ∙ sc.same_root;
        })

find_end-Outcome :
    (root : Node KuiMap) (all : List ℕ) (out : LoopEnd × Kuictx × List ℕ)
    → IsFull root
    → Stopped root all out
    → Outcome root all (find_end out.1 out.2)
find_end-Outcome root all out f st = elim (munch-longest root st.ks) [
  | inr (c, v, ex, l, e, u) ↦
      map_is_found root st.m out.1 out.2 st.ks all c v ex st.scanned st.split st.settled l e u
  | inl (l, u) ↦ none_found root st.m out.1 out.2 st.ks all f st.scanned st.split st.settled l u
]

-- The context that the loop of `kui_findkey` starts with.
abbrev started : Kuictx → Kuictx
started ctx = record ctx { volatile_buffer = []; map_sets = reset_all ctx.map_sets }

started-Scanned :
    (m : MapSet) (ctx : Kuictx)
    → ctx.map_sets ≡ m ∷ []
    → Scanned m.ktree.root [] (with_tree m (reset_state m.ktree)) (started ctx)
unfolding reset_all reset_state
started-Scanned m ctx e = record {
  sets = rw e;
  same_root = refl;
  tracks = reset_state-Tracks m.ktree;
  extra = refl;
}

findkey_done :
    (fuel : ℕ) (ctx : Kuictx) (s : List ℕ)
    → let out = find_loop stream fuel (started ctx) s in
      out.0 ≡ done → findkey stream fuel ctx s ≡ find_end out.1 out.2
unfolding findkey
findkey_done fuel ctx s h = rw (findkey, h)

matching_after_reset : (t : Tree KuiMap) → is_matching (reset_state t).state ≡ true
unfolding reset_state
matching_after_reset t = refl

-- With one map set whose leaves are all mapped, and fuel for every key that is waiting,
-- `kui_findkey` does what the longest match does: if some non-empty prefix of the waiting keys is
-- mapped, it replaces the longest such prefix by its value and reports a map; otherwise it returns
-- the first key. All other keys stay in their order. The mappings stay as they are.
pub findkey-longest_match :
    (fuel : ℕ) (m : MapSet) (ctx : Kuictx) (s : List ℕ)
    → ctx.map_sets ≡ m ∷ []
    → IsFull m.ktree.root
    → length (ctx.buffer ++ s) < fuel
    → Outcome m.ktree.root (ctx.buffer ++ s) (findkey stream fuel ctx s)
findkey-longest_match fuel m ctx s e f h =
    let root = m.ktree.root in
    let out = find_loop stream fuel (started ctx) s in
    let st : Stopped root (ctx.buffer ++ s) out =
      loop_scans root fuel [] (with_tree m (reset_state m.ktree)) (started ctx) s (ctx.buffer ++ s)
        (started-Scanned m ctx e) (matching_after_reset m.ktree) refl h in
    subst (Outcome root (ctx.buffer ++ s)) (sym (findkey_done fuel ctx s st.ends))
      (find_end-Outcome root (ctx.buffer ++ s) out f st)
