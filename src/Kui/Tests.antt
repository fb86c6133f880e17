-- ===== src/Kui/Tests.antt =====
-- The key mappings of lib/kui at concrete inputs: a map of `ab`, one of `abcd`, one of `x` to itself.
use cgdb.Base.{ℕ, codes, false, none, some, List, [], ◌∷◌, ◌++◌, ◌≡◌, refl, arith}
use cgdb.Kui.Tree.{
  Node, node, nil, cons, create, Tree, not_found, node_insert, tree_delete, push_key, reset_state,
  find,
}
use cgdb.Kui.Tree.Spec.{lookup, IsSorted, IsFull}
use cgdb.Kui.Tree.Lookup.{lookup-node_insert}
use cgdb.Kui.Tree.Sorted.{node_insert-IsSorted}
use cgdb.Kui.Tree.Full.{node_insert-IsFull}
use cgdb.Kui.Tree.Match.{Tracks, is_some, reset_state-Tracks, push_key-Tracks}
use cgdb.Kui.Tree.Forget.{lookup-tree_delete, tree_delete_leaf, tree_delete_inner}
use cgdb.Kui.Term.{string_to_key_array}
use cgdb.Kui.Term.RoundTrip.{spell_all, string_to_key_array-spell_all}
use cgdb.Kui.MapSet.{KuiMap, MapSet, find_map, register_map, map_create}
use cgdb.Kui.Context.{
  error, Kuictx, findkey, getkey, map_found, no_fuel, find_loop, find_end, findchar,
  update_each_list, should_continue_looking, reset_all, finalize_all, was_map_found, update_buffer,
  prepend_each, prepend_value,
}
use cgdb.Kui.Context.Scan.{stream}
use cgdb.Kui.Context.Sets.{findkey_two_sets}
use cgdb.Kui.MapSet.Register.{register_map_lem}
use cgdb.Kui.Context.Ending.{Outcome}
use cgdb.Kui.Context.Refine.{findkey-longest_match}
use cgdb.Kui.Context.Rounds.{match_rounds, seen, getkey-match_rounds, getkey_never_returns}

abbrev map_of : List ℕ → List ℕ → KuiMap
map_of k v = record { original_key = k; literal_key = k; original_value = v; literal_value = v }

abbrev ab : List ℕ
ab = codes "ab"

abbrev abcd : List ℕ
abcd = codes "abcd"

abbrev root_ab : Node KuiMap
root_ab = node_insert (create 0) ab (map_of ab (codes "xyz"))

abbrev root_both : Node KuiMap
root_both = node_insert root_ab abcd (map_of abcd (codes "w"))

abbrev tree_of : Node KuiMap → Tree KuiMap
tree_of n = record { root = n; cur = none; found_node = none; state = not_found; found = false }

abbrev set_of : Node KuiMap → MapSet
set_of n = record { ktree = tree_of n; maps = [] }

abbrev context_of : Node KuiMap → Kuictx
context_of n = record { map_sets = set_of n ∷ []; buffer = []; volatile_buffer = []; ms = 40 }

root_ab-IsSorted : IsSorted root_ab
unfolding IsSorted
root_ab-IsSorted = node_insert-IsSorted (create 0) ab (map_of ab (codes "xyz")) tt

root_ab-IsFull : IsFull root_ab
unfolding IsFull
root_ab-IsFull = node_insert-IsFull (create 0) ab (map_of ab (codes "xyz")) tt

root_both-IsSorted : IsSorted root_both
root_both-IsSorted = node_insert-IsSorted root_ab abcd (map_of abcd (codes "w")) root_ab-IsSorted

root_both-IsFull : IsFull root_both
root_both-IsFull = node_insert-IsFull root_ab abcd (map_of abcd (codes "w")) root_ab-IsFull

-- The example in the comment of `kui_update_buffer`: `ab` is replaced, `cde` is put back.
update_buffer_comment :
    let (r, ctx, s) = findkey stream 20 (context_of root_both) (codes "abcefgh") in
    (r ≡ map_found) × (ctx.buffer ++ s ≡ codes "xyzcefgh")
unfolding findkey find_loop find_end findchar update_each_list should_continue_looking reset_all
    finalize_all was_map_found update_buffer node_insert push_key prepend_each prepend_value
update_buffer_comment = (refl, refl)

findkey-longest_match_example :
    Outcome root_both (codes "abcefgh") (findkey stream 20 (context_of root_both) (codes "abcefgh"))
findkey-longest_match_example =
    findkey-longest_match 20 (set_of root_both) (context_of root_both) (codes "abcefgh") refl
      root_both-IsFull (omega arith)

getkey-match_rounds_example :
    seen (getkey stream 3 20 (context_of root_both) (codes "abc"))
    ≡ match_rounds 3 root_both (codes "abc")
unfolding node_insert find
getkey-match_rounds_example =
    getkey-match_rounds 3 20 root_both (set_of root_both) (context_of root_both) (codes "abc") refl
      refl root_both-IsFull (omega arith)

abbrev root_loop : Node KuiMap
root_loop = node_insert (create 0) (codes "x") (map_of (codes "x") (codes "x"))

root_loop-IsFull : IsFull root_loop
unfolding IsFull
root_loop-IsFull = node_insert-IsFull (create 0) (codes "x") (map_of (codes "x") (codes "x")) tt

getkey_never_returns_example :
    (getkey stream 1000 5 (context_of root_loop) (codes "xy")).0 ≡ no_fuel
unfolding node_insert find
getkey_never_returns_example =
    getkey_never_returns 1000 5 (set_of root_loop) (context_of root_loop) (codes "xy") (codes "y")
      (map_of (codes "x") (codes "x")) refl root_loop-IsFull (omega arith) refl refl

lookup-node_insert_example : lookup root_both abcd ≡ some (map_of abcd (codes "w"))
lookup-node_insert_example = lookup-node_insert root_ab abcd (map_of abcd (codes "w")) abcd

push_key-Tracks_example :
    let t = reset_state (tree_of root_ab) in
    (t' : Tree KuiMap) × (push_key t b'a' ≡ some (t', is_some (lookup t.root (codes "a"))))
    × Tracks t' (codes "a")
    × (t'.root ≡ t.root)
push_key-Tracks_example =
    push_key-Tracks (reset_state (tree_of root_ab)) [] b'a' (reset_state-Tracks (tree_of root_ab))
      (unfold reset_state in refl)

abbrev leaf_both : Node KuiMap
leaf_both = node b'd' (some (map_of abcd (codes "w"))) nil

abbrev root_three : Node KuiMap
root_three = node_insert root_both (codes "x") (map_of (codes "x") (codes "x"))

root_three-IsSorted : IsSorted root_three
root_three-IsSorted =
    node_insert-IsSorted root_both (codes "x") (map_of (codes "x") (codes "x")) root_both-IsSorted

-- Deleting `abcd` takes the map of `ab` along.
delete_takes_prefix :
    (tree_delete (tree_of root_three) abcd ≡ some (tree_of root_loop))
    × (lookup root_three ab ≡ some (map_of ab (codes "xyz")))
    × (lookup root_loop ab ≡ none)
unfolding tree_delete node_insert find
delete_takes_prefix = (refl, refl, refl)

lookup-tree_delete_example : lookup root_loop (codes "x") ≡ lookup root_three (codes "x")
unfolding tree_delete node_insert find
lookup-tree_delete_example =
    lookup-tree_delete (tree_of root_three) (tree_of root_loop) abcd (codes "x") root_three-IsSorted
      refl refl

tree_delete_leaf_example : lookup root_loop abcd ≡ none
unfolding tree_delete node_insert find
tree_delete_leaf_example =
    tree_delete_leaf (tree_of root_three) (tree_of root_loop) b'a' (codes "bcd") leaf_both
      root_three-IsSorted refl refl refl

tree_delete_inner_example : tree_delete (tree_of root_both) ab ≡ some (tree_of root_both)
unfolding node_insert find
tree_delete_inner_example =
    tree_delete_inner (tree_of root_both) b'a' (codes "b")
      (node b'b' (some (map_of ab (codes "xyz"))) (cons (node b'c' none (cons leaf_both nil)) nil))
      refl (omega arith)

string_to_key_array-spell_all_example :
    string_to_key_array (spell_all (97 ∷ 10001 ∷ b'<' ∷ [])) ≡ 97 ∷ 10001 ∷ b'<' ∷ []
unfolding cgdb.Kui.Term.get_keycode_from_cgdb_key
string_to_key_array-spell_all_example = string_to_key_array-spell_all (97 ∷ 10001 ∷ b'<' ∷ []) refl

-- One set with a map of `x`, one with a map of `ab`.
abbrev two_sets : Kuictx
two_sets = record (context_of root_loop) {
  map_sets = set_of root_loop ∷ set_of root_ab ∷ [];
  buffer = codes "abq";
}

findkey_two_sets_example :
    ((findkey stream 2 two_sets []).0 ≡ error)
    × ((findkey stream 2 two_sets []).1.buffer ≡ codes "q")
unfolding node_insert find
findkey_two_sets_example =
    findkey_two_sets stream 0 (set_of root_loop) (set_of root_ab) two_sets [] b'a' b'b' (codes "q")
      (node b'a' none (cons (node b'b' (some (map_of ab (codes "xyz"))) nil) nil)) refl refl refl
      refl refl

register_map_lem_example :
    (find_map (codes "<Esc>q") (register_map (set_of root_ab) (codes "<Esc>q") (codes "v")).maps
      ≡ some (map_create (codes "<Esc>q") (codes "v")))
    × (lookup (register_map (set_of root_ab) (codes "<Esc>q") (codes "v")).ktree.root ab
        ≡ lookup root_ab ab)
unfolding string_to_key_array find cgdb.Kui.Term.get_cgdb_key_from_keycode
register_map_lem_example =
    register_map_lem (set_of root_ab) (codes "<Esc>q") (codes "v") (codes "<Esc>q") ab
