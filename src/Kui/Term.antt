-- ===== src/Kui/Term.antt =====
-- lib/kui/kui_term.c: from the text of a mapping to the list of its keys, and back.
-- The two buffers of `kui_term_string_to_key_array` are lists, written at their end.
pub mod RoundTrip
use cgdb.Base.{
  ℕ, ◌+◌, ◌-◌, ◌%◌, ◌^◌, Bool, true, false, ◌&&◌, Option, none, some, List, [], ◌∷◌, ◌++◌, ltb, leb,
  ◌==◌, if◌then◌else◌, eq_list, map,
}
use cgdb.Kui.Keycode.{KeycodeData, cgdb_keycodes, cgdb_key_esc, cgdb_key_error}

-- `strcasecmp (a, b) == 0`, for ASCII.
abbrev pub to_lower : ℕ → ℕ
to_lower c = if leb b'A' c && leb c b'Z' then c + 32 else c

abbrev pub same_ignoring_case : List ℕ → List ℕ → Bool
same_ignoring_case a b = eq_list (map to_lower a) (map to_lower b)

-- The loops over `cgdb_keycodes`.
unfoldable pub key_of : List KeycodeData → List ℕ → ℕ
key_of [] keycode = cgdb_key_error
key_of (d ∷ ds) keycode = if same_ignoring_case keycode d.keycode then d.key else key_of ds keycode

unfoldable pub keycode_of : List KeycodeData → ℕ → Option (List ℕ)
keycode_of [] k = none
keycode_of (d ∷ ds) k = if k == d.key then some d.keycode else keycode_of ds k

unfoldable pub string_of : List KeycodeData → ℕ → Option (List ℕ)
string_of [] k = none
string_of (d ∷ ds) k = if k == d.key then some d.key_as_string else string_of ds k

-- `kui_term_get_cgdb_key_from_keycode`.
unfoldable pub get_cgdb_key_from_keycode : List ℕ → ℕ
unfolding key_of cgdb_keycodes
get_cgdb_key_from_keycode keycode = key_of cgdb_keycodes keycode

-- `kui_term_get_keycode_from_cgdb_key`.
unfoldable pub get_keycode_from_cgdb_key : ℕ → Option (List ℕ)
unfolding keycode_of cgdb_keycodes
get_keycode_from_cgdb_key k = keycode_of cgdb_keycodes k

-- `kui_term_get_string_from_key`.
unfoldable pub get_string_from_key : ℕ → Option (List ℕ)
unfolding string_of cgdb_keycodes
get_string_from_key k = string_of cgdb_keycodes k

-- `kui_term_is_cgdb_key`.
unfoldable pub is_cgdb_key : ℕ → Bool
is_cgdb_key k = leb cgdb_key_esc k && leb k cgdb_key_error

-- `enum state_type`, with the macro captured so far, and the output buffer.
pub data StateType : Type 0 where
  normal macro : StateType

pub record Scan : Type 0 where
  pub state : StateType
  pub macro_text : List ℕ
  pub keys : List ℕ

-- The int that a char of the text becomes: a char is signed, and a negative int is written as the 32-bit
-- number with the same bits.
abbrev pub int_of : ℕ → ℕ
int_of c = if ltb c 128 then c else (c + (2 ^ 32 - 256)) % 2 ^ 32

-- The end of a macro at '>': its key, or its text where it is no keycode.
unfoldable pub close_macro : Scan → Scan
close_macro s =
    let k = get_cgdb_key_from_keycode s.macro_text in
    record {
      state = normal;
      macro_text = [];
      keys = s.keys ++ (if k == cgdb_key_error then map int_of s.macro_text else k ∷ []);
    }

-- One round of the loop.
unfoldable pub scan_char : StateType → Scan → ℕ → Scan
unfolding close_macro
scan_char normal s c =
    if c == b'<'
    then record s { state = macro; macro_text = s.macro_text ++ c ∷ [] }
    else record s { keys = s.keys ++ int_of c ∷ [] }
scan_char macro s c =
    let dumped =
      if c == b'<'
      then record s { keys = s.keys ++ map int_of s.macro_text; macro_text = [] }
      else s in
    let captured = record dumped { macro_text = dumped.macro_text ++ c ∷ [] } in
    if c == b'>' then close_macro captured else captured

unfoldable pub scan : Scan → List ℕ → Scan
scan s [] = s
scan s (c ∷ cs) = scan (scan_char s.state s c) cs

-- What stands in the macro buffer when the text ends is copied.
unfoldable pub flush : StateType → Scan → List ℕ
flush normal s = s.keys
flush macro s = s.keys ++ map int_of s.macro_text

-- `kui_term_string_to_key_array`, without the 0 that it writes at the end.
unfoldable pub string_to_key_array : List ℕ → List ℕ
unfolding scan scan_char flush
string_to_key_array text =
    let s = scan (record { state = normal; macro_text = []; keys = [] }) text in flush s.state s
