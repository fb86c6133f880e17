-- ===== src/Kui/Context/Sets.antt =====
-- lib/kui/kui.c with two map sets in one context: a set that has stopped matching is given a key.
use cgdb.Base.{
  if◌then◌else◌, ℕ, suc, true, false, none, some, List, [], ◌∷◌, Option-cases, inl, inr, ◌≡◌, refl,
  arith, ◌==◌,
}
use cgdb.Kui.Tree.{
  Node, Tree, matching, not_found, push_key, enter, reset_state, find, children, count, macro_value,
}
use cgdb.Kui.MapSet.{KuiMap, MapSet}
use cgdb.Kui.Context.{
  Kuictx, Read, findkey, find_loop, findchar, update_each_list, should_continue_looking, reset_all,
  error, with_tree,
}

-- The two sets behind the first key: the first one matches nothing, the second goes on.
abbrev stuck : MapSet → MapSet
stuck m = with_tree m (record (reset_state m.ktree) { state = not_found; cur = none })

push_stuck :
    (m : MapSet) (k : ℕ)
    → find k (children m.ktree.root) ≡ none
    → push_key (reset_state m.ktree) k ≡ some ((stuck m).ktree, false)
unfolding push_key reset_state
push_stuck m k n = ground (arith, n)

push_on :
    (m : MapSet) (k : ℕ) (child : Node KuiMap)
    → find k (children m.ktree.root) ≡ some child
    → push_key (reset_state m.ktree) k ≡ some (enter (reset_state m.ktree) child)
unfolding push_key reset_state
push_on m k child n = ground (arith, n)

still_matching :
    (t : Tree KuiMap) (child : Node KuiMap)
    → (count (children child) == 0) ≡ false
    → (enter (reset_state t) child).0.state ≡ matching
unfolding enter reset_state
still_matching t child c = elim (Option-cases (macro_value child)) [
  | inl h ↦ ground (arith, h, c)
  | inr (v, h) ↦ ground (arith, h, c)
]

first_key :
    (m1 m2 : MapSet) (k : ℕ) (volatile : List ℕ) (child : Node KuiMap)
    → find k (children m1.ktree.root) ≡ none
    → find k (children m2.ktree.root) ≡ some child
    → (count (children child) == 0) ≡ false
    → (m2' : MapSet) × (v' : List ℕ) × (update_each_list (reset_all (m1 ∷ m2 ∷ [])) k volatile
        ≡ (true, stuck m1 ∷ m2' ∷ [], v'))
      × (should_continue_looking (stuck m1 ∷ m2' ∷ []) false ≡ true)
unfolding update_each_list should_continue_looking reset_all
first_key m1 m2 k volatile child n1 n2 c =
    let t2 = enter (reset_state m2.ktree) child in
    (
      with_tree m2 t2.0,
      (if t2.1 then [] else volatile),
      ground (arith, push_stuck m1 k n1, push_on m2 k child n2),
      ground (arith, still_matching m2.ktree child c),
    )

second_key :
    (m1 m2 : MapSet) (k : ℕ) (volatile : List ℕ)
    → (update_each_list (stuck m1 ∷ m2 ∷ []) k volatile).0 ≡ false
unfolding update_each_list push_key reset_state
second_key m1 m2 k volatile = refl

module _ {S : Type 0} (callback : ℕ → S → Read × S) where
  -- With two map sets in a context, when the first key of the waiting ones starts a mapping of the second set that goes on, and none of
  -- the first set, the second key makes the search fail, and both keys are gone.
  pub findkey_two_sets :
      (fuel : ℕ) (m1 m2 : MapSet) (ctx : Kuictx) (s : S) (k1 k2 : ℕ) (b : List ℕ)
      (child : Node KuiMap)
      → ctx.map_sets ≡ m1 ∷ m2 ∷ []
      → ctx.buffer ≡ k1 ∷ k2 ∷ b
      → find k1 (children m1.ktree.root) ≡ none
      → find k1 (children m2.ktree.root) ≡ some child
      → (count (children child) == 0) ≡ false
      → ((findkey callback (suc (suc fuel)) ctx s).0 ≡ error)
        × ((findkey callback (suc (suc fuel)) ctx s).1.buffer ≡ b)
  unfolding findkey find_loop findchar
  findkey_two_sets fuel m1 m2 ctx s k1 k2 b child e f n1 n2 c =
      let (m2', v', h1, h2) = first_key m1 m2 k1 (k1 ∷ []) child n1 n2 c in
      let h3 = second_key m1 m2' k2 (k2 ∷ v') in ground (arith, e, f, h1, h2, h3)
