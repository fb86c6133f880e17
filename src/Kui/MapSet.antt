-- ===== src/Kui/MapSet.antt =====
-- `struct kui_map` and `struct kui_map_set` of lib/kui/kui.c: the mappings the user has defined.
-- Texts are lists of bytes, allocation succeeds, and `none` is the return value -1. The linked
-- list of maps is a list, with the operations of lib/adt/std_list.c that are called on it.
pub mod Register
use cgdb.Base.{before_nul, ℕ, Bool, true, false, Option, none, some, List, [], ◌∷◌, if◌then◌else◌}
use Prim.Native.Nat.{compare, Ordering}
use cgdb.Kui.Tree.{Tree, tree_insert, tree_delete, tree_create}
use cgdb.Kui.Term.{string_to_key_array}

-- `struct kui_map`.
pub record KuiMap : Type 0 where
  pub original_key : List ℕ
  pub literal_key : List ℕ
  pub original_value : List ℕ
  pub literal_value : List ℕ

-- `kui_map_create`.
unfoldable pub map_create : List ℕ → List ℕ → KuiMap
map_create key value = record {
  original_key = key;
  literal_key = string_to_key_array key;
  original_value = value;
  literal_value = string_to_key_array value;
}

-- `strcmp`.
unfoldable pub strcmp : List ℕ → List ℕ → Ordering
strcmp [] [] = Ordering.eq
strcmp [] (b ∷ bs) = Ordering.lt
strcmp (a ∷ as') [] = Ordering.gt
strcmp (a ∷ as') (b ∷ bs) =
    let rest = strcmp as' bs in
    elim (compare a b) [
      | Ordering.lt ↦ Ordering.lt
      | Ordering.eq ↦ rest
      | Ordering.gt ↦ Ordering.gt
    ]

abbrev pub not_greater : Ordering → Bool
not_greater Ordering.gt = false
not_greater _ = true

abbrev pub is_equal : Ordering → Bool
is_equal Ordering.eq = true
is_equal _ = false

-- `struct kui_map_set`.
pub record MapSet : Type 0 where
  pub ktree : Tree KuiMap
  pub maps : List KuiMap

-- `kui_ms_create`.
unfoldable pub ms_create : Tree KuiMap → MapSet
unfolding tree_create
ms_create memory = record { ktree = tree_create memory; maps = [] }

-- `std_list_insert_sorted` with `kui_map_compare_callback`.
unfoldable pub insert_map : KuiMap → List KuiMap → List KuiMap
unfolding strcmp
insert_map m [] = m ∷ []
insert_map m (n ∷ ns) =
    if not_greater (strcmp m.original_key n.original_key) then m ∷ n ∷ ns else n ∷ insert_map m ns

-- `std_list_find` with `kui_map_compare_key_callback`; none is the end of the list, whose node
-- holds no data.
unfoldable pub find_map : List ℕ → List KuiMap → Option KuiMap
unfolding strcmp
find_map key [] = none
find_map key (n ∷ ns) = if is_equal (strcmp n.original_key key) then some n else find_map key ns

-- `std_list_remove` at the node that was found.
unfoldable pub remove_map : List ℕ → List KuiMap → List KuiMap
unfolding strcmp
remove_map key [] = []
remove_map key (n ∷ ns) = if is_equal (strcmp n.original_key key) then ns else n ∷ remove_map key ns

-- `kui_ms_register_map`.
unfoldable pub register_map : MapSet → List ℕ → List ℕ → MapSet
unfolding map_create insert_map tree_insert
register_map ms key value =
    let m = map_create key value in
    record {
      ktree = tree_insert ms.ktree (before_nul m.literal_key) m;
      maps = insert_map m ms.maps;
    }

-- `kui_ms_deregister_map`.
unfoldable pub deregister_map : MapSet → List ℕ → Option MapSet
unfolding find_map remove_map tree_delete
deregister_map ms key = elim (find_map key ms.maps) [
  | none ↦ some ms
  | some m ↦ elim (tree_delete ms.ktree (before_nul m.literal_key)) [
    | none ↦ none
    | some t ↦ some (record { ktree = t; maps = remove_map key ms.maps })
  ]
]
