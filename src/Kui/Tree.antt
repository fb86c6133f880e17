-- ===== src/Kui/Tree.antt =====
-- lib/kui/kui_tree.c, the trie of key mappings and the matching state that walks it.
-- The functions take the tree itself, so their guards against a null pointer have no counterpart,
-- and allocation succeeds. A key list is the part of the C array in front of its final 0. The
-- sorted `std_list` of children is the data type `Children`, with the operations of
-- lib/adt/std_list.c that the trie calls. `none` is the return value -1.
pub mod Spec
pub mod Lookup
pub mod Sorted
pub mod Match
pub mod Remove
pub mod Delete
pub mod Forget
pub mod Full
use cgdb.Base.{
  ℕ, zero, suc, ◌+◌, Bool, true, false, Option, none, some, List, [], ◌∷◌, ltb, leb, ◌==◌,
  if◌then◌else◌,
}

mutual
  -- `struct kui_tree_node`: key, macro_value (none for the null pointer), children.
  pub data Node (V : Type 0) : Type 0 where
    node : ℕ → Option V → Children V → Node V

  pub data Children (V : Type 0) : Type 0 where
    nil : Children V
    cons : Node V → Children V → Children V

-- `enum kui_tree_state`.
pub data TreeState : Type 0 where
  matching found_map not_found : TreeState

module _ {V : Type 0} where
  abbrev pub key : Node V → ℕ
  key (node k m c) = k

  abbrev pub macro_value : Node V → Option V
  macro_value (node k m c) = m

  abbrev pub children : Node V → Children V
  children (node k m c) = c

  -- `std_list_length` of the children.
  abbrev pub count : Children V → ℕ
  count nil = 0
  count (cons n r) = suc (count r)

  -- `kui_tree_node_create`, and the assignment of the key that follows it.
  abbrev pub create : ℕ → Node V
  create k = node k none nil

  -- `kui_tree_find`: the search stops at a greater key.
  unfoldable pub find : ℕ → Children V → Option (Node V)
  find k nil = none
  find k (cons n r) = if key n == k then some n else if ltb k (key n) then none else find k r

  -- `std_list_insert_sorted` with `kui_tree_node_compare_callback`: in front of the first node
  -- whose key is not smaller.
  unfoldable pub insert_sorted : Node V → Children V → Children V
  insert_sorted n nil = cons n nil
  insert_sorted n (cons a r) =
      if leb (key n) (key a) then cons n (cons a r) else cons a (insert_sorted n r)

  -- A write through the pointer that `kui_tree_find` gave out.
  unfoldable pub update : ℕ → (Node V → Node V) → Children V → Children V
  update k f nil = nil
  update k f (cons n r) = if key n == k then cons (f n) r else cons n (update k f r)

  -- `std_list_find` with `kui_tree_node_key_compare_callback`, then `std_list_remove`, which
  -- refuses the end of the list.
  unfoldable pub remove : ℕ → Children V → Option (Children V)
  remove k nil = none
  remove k (cons n r) =
      let rest = remove k r in
      if key n == k then some r else elim rest [ none ↦ none | some r' ↦ some (cons n r') ]

  -- The `if (!found)` block of `kui_tree_node_insert`: a missing child is created in its place.
  unfoldable pub ensure : ℕ → Children V → Children V
  unfolding find insert_sorted
  ensure x c = elim (find x c) [ none ↦ insert_sorted (create x) c | some n ↦ c ]

  -- `kui_tree_node_insert`.
  unfoldable pub node_insert : Node V → List ℕ → V → Node V
  unfolding ensure update
  node_insert (node k m c) [] d = node k (some d) c
  node_insert (node k m c) (x ∷ ks) d = node k m (update x (λ n. node_insert n ks d) (ensure x c))

  -- The end of `kui_tree_node_delete` and of `kui_tree_delete`: `from`, the node one level below
  -- the children of `n`, is removed from them if it has no children left. `from` is none where
  -- `klist[1] == 0`: there is nothing to remove yet.
  unfoldable pub prune : Option (Node V) → Node V → Option (Node V)
  unfolding remove
  prune none n = some n
  prune (some from) (node k m c) =
      let removed = remove (key from) c in
      if count (children from) == 0
      then elim removed [ none ↦ none | some r ↦ some (node k m r) ]
      else some (node k m c)

  -- `kui_tree_node_delete`: the node as it is left, and what `*from` points to.
  unfoldable pub node_delete : Node V → List ℕ → Option (Node V × Option (Node V))
  unfolding find prune update
  node_delete n [] = some (n, none)
  node_delete (node k m c) (x ∷ ks) = elim (find x c) [
    | none ↦ none
    | some child ↦ elim (node_delete child ks) [
      | none ↦ none
      | some (child', from) ↦ elim (prune from child') [
        | none ↦ none
        | some child'' ↦ some (node k m (update x (λ _. child'') c), some child'')
      ]
    ]
  ]

-- `struct kui_tree`.
pub record Tree (V : Type 0) : Type 0 where
  pub root : Node V
  pub cur : Option (Node V)
  pub found_node : Option (Node V)
  pub state : TreeState
  pub found : Bool

module _ {V : Type 0} where
  -- `kui_tree_create`: the fields other than the root keep what `malloc` left in them.
  unfoldable pub tree_create : Tree V → Tree V
  tree_create memory = record memory { root = create 0 }

  -- `kui_tree_insert`.
  unfoldable pub tree_insert : Tree V → List ℕ → V → Tree V
  unfolding node_insert
  tree_insert t klist d = record t { root = node_insert t.root klist d }

  -- `kui_tree_delete`, `none` for -1. On an empty key list the C code reads an uninitialised pointer,
  -- and `none` stands for whatever follows.
  unfoldable pub tree_delete : Tree V → List ℕ → Option (Tree V)
  unfolding node_delete prune
  tree_delete t [] = none
  tree_delete t (k ∷ ks) = elim (node_delete t.root (k ∷ ks)) [
    | none ↦ none
    | some (n, from) ↦ elim (prune from n) [ none ↦ none | some n' ↦ some (record t { root = n' }) ]
  ]

  -- `kui_tree_reset_state`.
  unfoldable pub reset_state : Tree V → Tree V
  reset_state t = record t { cur = some t.root; state = matching; found = false; found_node = none }

  -- `kui_tree_finalize_state`.
  unfoldable pub finalize_state : Tree V → Tree V
  finalize_state t = if t.found then record t { state = found_map } else t

  -- `kui_tree_get_data`: the macro value of the node found last.
  unfoldable pub get_data : Tree V → Option (Option V)
  get_data t =
      if t.found then elim t.found_node [ none ↦ none | some n ↦ some (macro_value n) ] else none

  -- The assignments of `kui_tree_push_key` once the child `n` is found, with `*map_found`.
  unfoldable pub enter : Tree V → Node V → Tree V × Bool
  enter t n =
      let t' = record t {
        cur = some n;
        state = if count (children n) == 0 then found_map else t.state;
      } in
      elim (macro_value n) [
        | none ↦ (t', false)
        | some v ↦ (record t' { found = true; found_node = some n }, true)
      ]

  -- The null pointer of `cur` is met in no state but `not_found`, where the key is refused.
  unfoldable pub push_from : Tree V → TreeState → Option (Node V) → ℕ → Option (Tree V × Bool)
  unfolding find enter
  push_from t matching (some n) k = elim (find k (children n)) [
    | none ↦ some (record t { state = not_found; cur = none }, false)
    | some child ↦ some (enter t child)
  ]
  push_from t _ _ k = none

  -- `kui_tree_push_key`.
  unfoldable pub push_key : Tree V → ℕ → Option (Tree V × Bool)
  unfolding push_from
  push_key t k = push_from t t.state t.cur k
