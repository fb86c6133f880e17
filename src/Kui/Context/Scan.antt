-- ===== src/Kui/Context/Scan.antt =====
-- The main loop of `kui_findkey` in lib/kui/kui.c, over one map set and a stream of keys.
use cgdb.Base.{
  ℕ, zero, suc, ◌<◌, true, false, Option, none, some, List, [], ◌∷◌, ◌++◌, ◌≡◌, ◌∙◌, refl, ap,
  if◌then◌else◌, arith, Option-cases, Bool-cases, inl, inr, ◌⊎◌, append_assoc, sym, length, subst,
}
use mathlib.Core.Path.{subst₂}
use mathlib.Core.List.{reverse, reverse-append}
use cgdb.Kui.Tree.{Node, Tree, TreeState, matching, found_map, not_found}
use cgdb.Kui.Tree.Spec.{lookup}
use cgdb.Kui.Tree.Match.{Tracks, push_key-Tracks, is_some}
use cgdb.Kui.MapSet.{KuiMap, MapSet}
use cgdb.Kui.Munch.{munch, extend, munch-append}
use cgdb.Kui.Context.{
  Read, got, no_input, Kuictx, update_each_list, is_matching, with_tree, should_continue_looking,
  findchar, find_loop, done, LoopEnd,
}

-- The callback that reads a list of keys to its end.
abbrev pub stream : ℕ → List ℕ → Read × List ℕ
stream ms [] = (no_input, [])
stream ms (k ∷ ks) = (got k, ks)

abbrev pub behind : List ℕ → Option (KuiMap × List ℕ) → List ℕ
behind ks none = ks
behind ks (some (m, extra)) = extra

-- The keys typed behind the longest mapped prefix, the last one first.
abbrev pub extra_keys : Node KuiMap → List ℕ → List ℕ
extra_keys root ks = reverse (behind ks (munch root ks))

behind-extend :
    (ks : List ℕ) (k : ℕ) (o : Option (KuiMap × List ℕ))
    → behind (ks ++ k ∷ []) (extend (k ∷ []) o) ≡ behind ks o ++ k ∷ []
behind-extend ks k none = refl
behind-extend ks k (some (m, ex)) = refl

extra_keys-append :
    (root : Node KuiMap) (ks : List ℕ) (k : ℕ)
    → extra_keys root (ks ++ k ∷ [])
      ≡ (if is_some (lookup root (ks ++ k ∷ [])) then [] else k ∷ extra_keys root ks)
extra_keys-append root ks k = elim (Option-cases (lookup root (ks ++ k ∷ []))) [
  | inr (v, e) ↦ rw (munch-append root ks k, e) refl
  | inl e ↦
      rw (munch-append root ks k, e)
        (rw (behind-extend ks k (munch root ks))
          (reverse-append (behind ks (munch root ks)) (k ∷ [])))
]

-- The context after the keys `ks` were read: one map set, whose tree is right for them.
pub record Scanned (root : Node KuiMap) (ks : List ℕ) (m : MapSet) (ctx : Kuictx) : Type 0 where
  pub sets : ctx.map_sets ≡ m ∷ []
  pub same_root : m.ktree.root ≡ root
  pub tracks : Tracks m.ktree ks
  pub extra : ctx.volatile_buffer ≡ extra_keys root ks

update-Scanned :
    (root : Node KuiMap) (ks : List ℕ) (k : ℕ) (m : MapSet) (ctx : Kuictx)
    → Scanned root ks m ctx
    → m.ktree.state ≡ matching
    → (t : Tree KuiMap) × (update_each_list ctx.map_sets k (k ∷ ctx.volatile_buffer)
        ≡ (true, with_tree m t ∷ [], extra_keys root (ks ++ k ∷ [])))
      × Tracks t (ks ++ k ∷ [])
      × (t.root ≡ root)
unfolding update_each_list
update-Scanned root ks k m ctx v s =
    let (t, e, tr, r) = push_key-Tracks m.ktree ks k v.tracks s in
    (
      t,
      rw v.sets (ground (arith, e, v.same_root, v.extra, extra_keys-append root ks k)),
      tr,
      r ∙ v.same_root,
    )

-- How the loop leaves things: the keys `ks` are read and `rest` is left to read, and either nothing
-- is left or no longer mapping can be reached.
pub record Stopped (root : Node KuiMap) (all : List ℕ) (out : LoopEnd × Kuictx × List ℕ)
    : Type 0 where
  pub ends : out.0 ≡ done
  pub ks : List ℕ
  pub m : MapSet
  pub scanned : Scanned root ks m out.1
  pub split : all ≡ ks ++ (out.1.buffer ++ out.2)
  pub settled : (out.1.buffer ++ out.2 ≡ []) ⊎ (is_matching m.ktree.state ≡ false)

-- `kui_findchar` takes the next key of the buffer and the stream together.
findchar_next :
    (ctx : Kuictx) (s : List ℕ) (k : ℕ) (q : List ℕ)
    → ctx.buffer ++ s ≡ k ∷ q
    → (ctx' : Kuictx) × (s' : List ℕ) × (findchar stream ctx s ≡ (got k, ctx', s'))
      × (ctx'.buffer ++ s' ≡ q)
      × (ctx'.map_sets ≡ ctx.map_sets)
      × (ctx'.volatile_buffer ≡ ctx.volatile_buffer)
unfolding findchar
findchar_next ctx s k q e = go ctx.buffer refl
  where
    go :
        (b : List ℕ)
        → ctx.buffer ≡ b
        → (ctx' : Kuictx) × (s' : List ℕ) × (findchar stream ctx s ≡ (got k, ctx', s'))
          × (ctx'.buffer ++ s' ≡ q)
          × (ctx'.map_sets ≡ ctx.map_sets)
          × (ctx'.volatile_buffer ≡ ctx.volatile_buffer)
    go [] h = (ctx, q, ground (arith, ap (λ b. b ++ s) h), rw h, refl, refl)
    go (x ∷ b) h =
        (record ctx { buffer = b }, s, ground arith, ground (arith, ap (λ b. b ++ s) h), refl, refl)

findchar_empty :
    (ctx : Kuictx) (s : List ℕ) → ctx.buffer ++ s ≡ [] → findchar stream ctx s ≡ (no_input, ctx, s)
unfolding findchar
findchar_empty ctx s e = go ctx.buffer refl
  where
    go : (b : List ℕ) → ctx.buffer ≡ b → findchar stream ctx s ≡ (no_input, ctx, s)
    go [] h = ground (arith, ap (λ b. b ++ s) h)
    go (x ∷ b) h = absurd (cc (ap (λ b. b ++ s) h, e))

matching_of : (s : TreeState) → is_matching s ≡ true → s ≡ matching
matching_of matching e = refl
matching_of found_map e = cc
matching_of not_found e = cc

-- A round of the loop that reads a key which every set takes.
find_loop_round :
    (fuel k : ℕ) (ctx ctx1 : Kuictx) (s s1 : List ℕ) (sets : List MapSet) (vol : List ℕ)
    → findchar stream ctx s ≡ (got k, ctx1, s1)
    → update_each_list ctx1.map_sets k (k ∷ ctx1.volatile_buffer) ≡ (true, sets, vol)
    → let ctx2 = record ctx1 { map_sets = sets; volatile_buffer = vol } in
      find_loop stream (suc fuel) ctx s ≡ (
        if should_continue_looking sets false
        then find_loop stream fuel ctx2 s1
        else (done, ctx2, s1))
unfolding find_loop
find_loop_round fuel k ctx ctx1 s s1 sets vol f u = ground (arith, f, u)

find_loop_empty :
    (fuel : ℕ) (ctx : Kuictx) (s : List ℕ)
    → ctx.buffer ++ s ≡ []
    → find_loop stream (suc fuel) ctx s ≡ (done, ctx, s)
unfolding find_loop
find_loop_empty fuel ctx s e = ground (arith, findchar_empty ctx s e)

continues-eq :
    (t : Tree KuiMap) (m : MapSet)
    → should_continue_looking (with_tree m t ∷ []) false ≡ is_matching t.state
unfolding should_continue_looking
continues-eq t m = ground arith

pub loop_scans :
    (root : Node KuiMap) (fuel : ℕ) (ks : List ℕ) (m : MapSet) (ctx : Kuictx) (s q : List ℕ)
    → Scanned root ks m ctx
    → is_matching m.ktree.state ≡ true
    → ctx.buffer ++ s ≡ q
    → length q < fuel
    → Stopped root (ks ++ q) (find_loop stream fuel ctx s)
loop_scans root zero ks m ctx s q v st e h = absurd (omega arith)
loop_scans root (suc fuel) ks m ctx s [] v st e h =
    subst (Stopped root (ks ++ [])) (sym (find_loop_empty fuel ctx s e)) (record {
      ends = refl;
      ks = ks;
      m = m;
      scanned = v;
      split = ap (λ r. ks ++ r) (sym e);
      settled = inl e;
    })
loop_scans root (suc fuel) ks m ctx s (k ∷ q) v st e h =
    let (ctx1, s1, f, b, ms, vo) = findchar_next ctx s k q e in
    let (t, u, tr, r) = update-Scanned root ks k m ctx v (matching_of m.ktree.state st) in
    let vol = extra_keys root (ks ++ k ∷ []) in
    let ctx2 = record ctx1 { map_sets = with_tree m t ∷ []; volatile_buffer = vol } in
    let v2 : Scanned root (ks ++ k ∷ []) (with_tree m t) ctx2 = record {
      sets = refl;
      same_root = r;
      tracks = tr;
      extra = refl;
    } in
    let round = find_loop_round fuel k ctx ctx1 s s1 (with_tree m t ∷ []) vol f (rw (ms, vo) u) in
    elim (Bool-cases (is_matching t.state)) [
      | inl go ↦
          subst₂ (Stopped root) (append_assoc ks (k ∷ []) q)
            (sym (round ∙ rw (continues-eq t m, go)))
            (loop_scans root fuel (ks ++ k ∷ []) (with_tree m t) ctx2 s1 q v2 go b (omega arith))
      | inr stop ↦
          subst₂ (Stopped root) (append_assoc ks (k ∷ []) q)
            (sym (round ∙ rw (continues-eq t m, stop)))
            (record {
              ends = refl;
              ks = ks ++ k ∷ [];
              m = with_tree m t;
              scanned = v2;
              split = ap (λ r. (ks ++ k ∷ []) ++ r) (sym b);
              settled = inr stop;
            })
    ]
