-- ===== src/Kui/Context.antt =====
-- `struct kuictx` of lib/kui/kui.c: reading a key, with the mappings applied.
-- The callback that reads a character is a parameter, with the state that it reads from. The loops
-- of `kui_findkey` and `kui_getkey` take fuel. `none` is the return value -1 of the helpers.
pub mod Scan
pub mod Buffer
pub mod Ending
pub mod Refine
pub mod Rounds
pub mod Sets
use cgdb.Base.{
  before_nul, ℕ, zero, suc, Bool, true, false, Option, none, some, List, [], ◌∷◌, if◌then◌else◌,
  length, ltb,
}
use cgdb.Kui.Tree.{
  Tree, TreeState, matching, found_map, not_found, reset_state, push_key, finalize_state, get_data,
}
use cgdb.Kui.MapSet.{KuiMap, MapSet}

-- What the callback returns: 1 with a key, 0, or -1.
pub data Read : Type 0 where
  got : ℕ → Read
  no_input : Read
  read_error : Read

pub record Kuictx : Type 0 where
  pub map_sets : List MapSet
  pub buffer : List ℕ
  pub volatile_buffer : List ℕ
  pub ms : ℕ

-- `kui_create`.
unfoldable pub create : ℕ → Kuictx
create ms = record { map_sets = []; buffer = []; volatile_buffer = []; ms = ms }

-- `std_list_append`, as `kui_add_map_set` calls it.
unfoldable pub append_set : List MapSet → MapSet → List MapSet
append_set [] s = s ∷ []
append_set (x ∷ xs) s = x ∷ append_set xs s

-- `kui_add_map_set`.
unfoldable pub add_map_set : Kuictx → MapSet → Kuictx
unfolding append_set
add_map_set ctx s = record ctx { map_sets = append_set ctx.map_sets s }

-- `kui_clear_map_sets`.
unfoldable pub clear_map_sets : Kuictx → Kuictx
clear_map_sets ctx = record ctx { map_sets = [] }

-- `kui_cangetkey`.
unfoldable pub cangetkey : Kuictx → Bool
cangetkey ctx = ltb 0 (length ctx.buffer)

abbrev with_tree : MapSet → Tree KuiMap → MapSet
with_tree m t = record m { ktree = t }

-- `std_list_foreach` with `kui_reset_state_data`.
unfoldable pub reset_all : List MapSet → List MapSet
unfolding reset_state
reset_all [] = []
reset_all (m ∷ r) = with_tree m (reset_state m.ktree) ∷ reset_all r

-- `std_list_foreach` with `kui_finalize_state`.
unfoldable pub finalize_all : List MapSet → List MapSet
unfolding finalize_state
finalize_all [] = []
finalize_all (m ∷ r) = with_tree m (finalize_state m.ktree) ∷ finalize_all r

-- `kui_update_each_list`: whether it returned 0, the map sets, and the volatile buffer, which is
-- emptied whenever a set finds a map. The sets behind one that refuses the key are not reached.
unfoldable pub update_each_list : List MapSet → ℕ → List ℕ → Bool × List MapSet × List ℕ
update_each_list [] key volatile = (true, [], volatile)
update_each_list (m ∷ r) key volatile = elim (push_key m.ktree key) [
  | none ↦ (false, m ∷ r, volatile)
  | some (t, map_found) ↦
      let (ok, r', volatile') = update_each_list r key (if map_found then [] else volatile) in
      (ok, with_tree m t ∷ r', volatile')
]

abbrev pub is_matching : TreeState → Bool
is_matching matching = true
is_matching _ = false

abbrev pub is_found : TreeState → Bool
is_found found_map = true
is_found _ = false

-- `kui_should_continue_looking`.
unfoldable pub should_continue_looking : List MapSet → Bool → Bool
should_continue_looking [] acc = acc
should_continue_looking (m ∷ r) acc =
    should_continue_looking r (if is_matching m.ktree.state then true else acc)

-- `kui_was_map_found`: the map of the last set that found one. A found node always has a macro, so
-- the null pointer that `kui_tree_get_data` could hand on does not occur; it counts as -1.
unfoldable pub was_map_found : List MapSet → Option KuiMap → Option (Option KuiMap)
unfolding get_data
was_map_found [] acc = some acc
was_map_found (m ∷ r) acc =
    let skip = was_map_found r acc in
    if is_found m.ktree.state
    then elim (get_data m.ktree) [
      | none ↦ none
      | some none ↦ none
      | some (some v) ↦ was_map_found r (some v)
    ]
    else skip

-- The loop of `kui_update_buffer` that puts the extra keys in front of the buffer.
unfoldable pub prepend_each : List ℕ → List ℕ → List ℕ
prepend_each [] buffer = buffer
prepend_each (v ∷ vs) buffer = prepend_each vs (v ∷ buffer)

-- Its loop over the value of the map, from the last key to the first.
unfoldable pub prepend_value : List ℕ → List ℕ → List ℕ
prepend_value [] buffer = buffer
prepend_value (v ∷ vs) buffer = v ∷ prepend_value vs buffer

-- The last node of a list, taken off (`std_list_previous` of the end, `std_list_remove`).
unfoldable pub take_last : ℕ → List ℕ → ℕ × List ℕ
take_last x [] = (x, [])
take_last x (y ∷ ys) = let (k, r) = take_last y ys in (k, x ∷ r)

-- `kui_update_buffer`: the key (none where a map was found), the buffer and the volatile buffer.
unfoldable pub update_buffer : List ℕ → List ℕ → Option KuiMap → Option (Option ℕ × List ℕ × List ℕ)
update_buffer buffer volatile (some m) =
    some (none, prepend_value (before_nul m.literal_value) (prepend_each volatile buffer), volatile)
update_buffer buffer [] none = none
update_buffer buffer (x ∷ xs) none =
    let (k, volatile') = take_last x xs in some (some k, prepend_each volatile' buffer, volatile')

-- How the loop of `kui_findkey` ends.
pub data LoopEnd : Type 0 where
  done failed out_of_fuel : LoopEnd

-- What `kui_findkey` returns: a key, a map found, or -1.
pub data Found : Type 0 where
  key : ℕ → Found
  map_found : Found
  error : Found
  no_fuel : Found

-- What `kui_findkey` does behind its loop.
unfoldable pub find_end : {S : Type 0} → Kuictx → S → Found × Kuictx × S
find_end ctx s =
    let sets = finalize_all ctx.map_sets in
    let ctx1 = record ctx { map_sets = sets } in
    elim (was_map_found sets none) [
      | none ↦ (error, ctx1, s)
      | some m ↦ elim (update_buffer ctx.buffer ctx.volatile_buffer m) [
        | none ↦ (error, ctx1, s)
        | some (none, b, v) ↦ (map_found, record ctx1 { buffer = b; volatile_buffer = v }, s)
        | some (some k, b, v) ↦ (key k, record ctx1 { buffer = b; volatile_buffer = v }, s)
      ]
    ]

module _ {S : Type 0} (callback : ℕ → S → Read × S) where
  -- `kui_findchar`: the buffer first.
  unfoldable pub findchar : Kuictx → S → Read × Kuictx × S
  findchar ctx s = elim ctx.buffer [
    | [] ↦ let (r, s') = callback ctx.ms s in (r, ctx, s')
    | k ∷ b ↦ (got k, record ctx { buffer = b }, s)
  ]

  -- The main loop of `kui_findkey`.
  unfoldable pub find_loop : ℕ → Kuictx → S → LoopEnd × Kuictx × S
  find_loop zero ctx s = (out_of_fuel, ctx, s)
  find_loop (suc fuel) ctx s =
      let (r, ctx1, s') = findchar ctx s in
      elim r [
        | read_error ↦ (failed, ctx1, s')
        | no_input ↦ (done, ctx1, s')
        | got k ↦
            let (ok, sets, volatile) =
              update_each_list ctx1.map_sets k (k ∷ ctx1.volatile_buffer) in
            let ctx2 = record ctx1 { map_sets = sets; volatile_buffer = volatile } in
            let more = find_loop fuel ctx2 s' in
            if ok
            then (if should_continue_looking sets false then more else (done, ctx2, s'))
            else (failed, ctx2, s')
      ]

  -- `kui_findkey`.
  unfoldable pub findkey : ℕ → Kuictx → S → Found × Kuictx × S
  findkey fuel ctx s =
      let start = record ctx { volatile_buffer = []; map_sets = reset_all ctx.map_sets } in
      let (end', ctx1, s') = find_loop fuel start s in
      elim end' [
        | done ↦ find_end ctx1 s'
        | failed ↦ (error, ctx1, s')
        | out_of_fuel ↦ (no_fuel, ctx1, s')
      ]

  -- `kui_getkey`: a map that was found starts the search again, up to `rounds` times.
  unfoldable pub getkey : ℕ → ℕ → Kuictx → S → Found × Kuictx × S
  getkey zero fuel ctx s = (no_fuel, ctx, s)
  getkey (suc rounds) fuel ctx s =
      let (r, ctx1, s') = findkey fuel ctx s in
      let again = getkey rounds fuel ctx1 s' in
      elim r [ map_found ↦ again | other ↦ (other, ctx1, s') ]
