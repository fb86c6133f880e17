-- ===== src/Kui/MapSet/Register.antt =====
-- `kui_ms_register_map` of lib/kui/kui.c: the list of the maps and the trie together.
use cgdb.Base.{
  ℕ, true, false, some, List, [], ◌∷◌, ◌≡◌, refl, sym, ◌∙◌, ap, arith, Bool-cases, inl, inr,
  if◌then◌else◌, before_nul, eq_list, eq_list_refl, eq_list→≡,
}
use Prim.Native.Nat.{Ordering}
use cgdb.Kui.Tree.{tree_insert}
use cgdb.Kui.Tree.Spec.{lookup}
use cgdb.Kui.Tree.Lookup.{lookup-node_insert}
use cgdb.Kui.Term.{string_to_key_array}
use cgdb.Kui.MapSet.{
  KuiMap, map_create, MapSet, strcmp, not_greater, is_equal, insert_map, find_map, register_map,
}

is_equal-strcmp : (a b : List ℕ) → is_equal (strcmp a b) ≡ eq_list a b
unfolding strcmp
is_equal-strcmp [] [] = refl
is_equal-strcmp [] (b ∷ bs) = refl
is_equal-strcmp (a ∷ rest) [] = refl
is_equal-strcmp (a ∷ rest) (b ∷ bs) = ground (arith, is_equal-strcmp rest bs)

not_greater_of_equal : (o : Ordering) → is_equal o ≡ true → not_greater o ≡ true
not_greater_of_equal o h = ground arith

-- A text that is greater than another is not that text.
greater_differs :
    (a b k : List ℕ) → not_greater (strcmp a b) ≡ false → eq_list b k ≡ true → eq_list a k ≡ false
greater_differs a b k g e = elim (Bool-cases (eq_list a k)) [
  | inr h ↦ h
  | inl h ↦
      let same : a ≡ b = eq_list→≡ a k h ∙ sym (eq_list→≡ b k e) in
      let equal : is_equal (strcmp a b) ≡ true =
        is_equal-strcmp a b ∙ ap (eq_list a) (sym same) ∙ eq_list_refl a in
      ground (arith, g, not_greater_of_equal (strcmp a b) equal)
]

find_map-insert_map :
    (m : KuiMap) (ns : List KuiMap) (k : List ℕ)
    → find_map k (insert_map m ns) ≡ (if eq_list m.original_key k then some m else find_map k ns)
unfolding find_map insert_map
find_map-insert_map m [] k = ground (arith, is_equal-strcmp m.original_key k)
find_map-insert_map m (n ∷ ns) k =
    elim (Bool-cases (not_greater (strcmp m.original_key n.original_key))) [
      | inl h ↦ ground (arith, h, is_equal-strcmp m.original_key k)
      | inr h ↦ elim (Bool-cases (eq_list n.original_key k)) [
        | inl e ↦ ground (
          arith,
          h,
          e,
          is_equal-strcmp n.original_key k,
          greater_differs m.original_key n.original_key k h e,
        )
        | inr e ↦ ground (arith, h, e, is_equal-strcmp n.original_key k, find_map-insert_map m ns k)
      ]
    ]

-- After a mapping is registered its text is found in the list of the maps, where every other text is
-- found as before, and its keys lead to it in the trie, where all other keys lead where they led.
pub register_map_lem :
    (ms : MapSet) (k value text js : List ℕ)
    → (find_map text (register_map ms k value).maps
        ≡ (if eq_list k text then some (map_create k value) else find_map text ms.maps))
      × (lookup (register_map ms k value).ktree.root js ≡ (
          if eq_list (before_nul (string_to_key_array k)) js
          then some (map_create k value)
          else lookup ms.ktree.root js))
unfolding register_map map_create tree_insert
register_map_lem ms k value text js = (
  find_map-insert_map (map_create k value) ms.maps text,
  lookup-node_insert ms.ktree.root (before_nul (string_to_key_array k)) (map_create k value) js,
)
