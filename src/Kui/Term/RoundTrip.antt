-- ===== src/Kui/Term/RoundTrip.antt =====
-- Keys that are written as their keycodes, the input of lib/kui/kui_term.c.
use cgdb.Base.{
  ℕ, Bool, true, false, ◌&&◌, ◌||◌, not, Option, none, some, List, [], ◌∷◌, ◌++◌, ◌==◌, ◌≡◌, ◌≢◌,
  refl, ◌∙◌, ap, arith, append_assoc, append-nil, Bool-cases, Option-cases, inl, inr, sym,
  ≢→==_false, ltb,
}
use cgdb.Kui.Keycode.{KeycodeData, cgdb_keycodes, cgdb_key_error}
use cgdb.Kui.Term.{
  keycode_of, get_cgdb_key_from_keycode, get_keycode_from_cgdb_key, normal, macro, Scan, scan,
  scan_char, string_to_key_array,
}

-- What follows the '<' of a keycode: no '<' or '>' but the last byte.
abbrev ends_macro : List ℕ → Bool
ends_macro [] = false
ends_macro (c ∷ []) = c == b'>'
ends_macro (c ∷ d ∷ cs) = not (c == b'<') && not (c == b'>') && ends_macro (d ∷ cs)

abbrev is_macro : List ℕ → Bool
is_macro [] = false
is_macro (c ∷ cs) = c == b'<' && ends_macro cs

-- A row can be read back. The row of 127 cannot: its keycode is that of an earlier row.
reads_back : KeycodeData → Bool
reads_back d =
    (d.key == 127)
    || (is_macro d.keycode
        && (get_cgdb_key_from_keycode d.keycode == d.key)
        && not (d.key == cgdb_key_error))

all_read_back : List KeycodeData → Bool
all_read_back [] = true
all_read_back (d ∷ ds) = reads_back d && all_read_back ds

table_reads_back : all_read_back cgdb_keycodes ≡ true
unfolding all_read_back reads_back get_cgdb_key_from_keycode
table_reads_back = refl

-- The row by which a key is written.
row_of :
    (ds : List KeycodeData) (k : ℕ) (w : List ℕ)
    → all_read_back ds ≡ true
    → keycode_of ds k ≡ some w
    → k ≢ 127
    → (is_macro w ≡ true) × (get_cgdb_key_from_keycode w ≡ k) × (k ≢ cgdb_key_error)
unfolding all_read_back keycode_of reads_back
row_of [] k w a e n = cc
row_of (d ∷ ds) k w a e n = elim (Bool-cases (k == d.key)) [
  | inl h ↦ ground arith
  | inr h ↦ row_of ds k w (ground arith) (ground arith) n
]

-- The scanner inside a macro, and between macros.
abbrev inside : List ℕ → List ℕ → Scan
inside m out = record { state = macro; macro_text = m; keys = out }

abbrev outside : List ℕ → Scan
outside out = record { state = normal; macro_text = []; keys = out }

scan_char_plain :
    (m out : List ℕ) (c : ℕ)
    → (c == b'<') ≡ false
    → (c == b'>') ≡ false
    → scan_char macro (inside m out) c ≡ inside (m ++ c ∷ []) out
unfolding scan_char
scan_char_plain m out c g h = rw (g, h)

scan_char_close :
    (m out : List ℕ) (c k : ℕ)
    → (c == b'>') ≡ true
    → get_cgdb_key_from_keycode (m ++ c ∷ []) ≡ k
    → k ≢ cgdb_key_error
    → scan_char macro (inside m out) c ≡ outside (out ++ k ∷ [])
unfolding scan_char
scan_char_close m out c k e g n = ground arith

-- The rest of a keycode is read as its key.
scan_macro :
    (cs rest m out : List ℕ) (k : ℕ)
    → ends_macro cs ≡ true
    → get_cgdb_key_from_keycode (m ++ cs) ≡ k
    → k ≢ cgdb_key_error
    → scan (inside m out) (cs ++ rest) ≡ scan (outside (out ++ k ∷ [])) rest
unfolding scan
scan_macro [] rest m out k e g n = cc
scan_macro (c ∷ []) rest m out k e g n = ap (λ s. scan s rest) (scan_char_close m out c k e g n)
scan_macro (c ∷ d ∷ cs) rest m out k e g n =
    ap (λ s. scan s (d ∷ cs ++ rest)) (scan_char_plain m out c (ground arith) (ground arith))
    ∙ scan_macro (d ∷ cs) rest (m ++ c ∷ []) out k (ground arith)
        (ap get_cgdb_key_from_keycode (append_assoc m (c ∷ []) (d ∷ cs)) ∙ g) n

-- A keycode is read as its key.
scan_keycode :
    (w rest out : List ℕ) (k : ℕ)
    → is_macro w ≡ true
    → get_cgdb_key_from_keycode w ≡ k
    → k ≢ cgdb_key_error
    → scan (outside out) (w ++ rest) ≡ scan (outside (out ++ k ∷ [])) rest
unfolding scan
scan_keycode [] rest out k e g n = cc
scan_keycode (c ∷ cs) rest out k e g n =
    ap (λ s. scan s (cs ++ rest)) opened ∙ scan_macro cs rest (c ∷ []) out k (ground arith) g n
  where
    opened : scan_char normal (outside out) c ≡ inside (c ∷ []) out
    opened = unfold scan_char in ground arith

-- A key is written as its keycode, or as the character that it is.
abbrev pub spell : ℕ → Option (List ℕ) → List ℕ
spell k none = k ∷ []
spell k (some w) = w

abbrev pub spell_all : List ℕ → List ℕ
spell_all [] = []
spell_all (k ∷ ks) = spell k (get_keycode_from_cgdb_key k) ++ spell_all ks

-- No character that is written as itself opens a macro.
less_than_spelled : get_keycode_from_cgdb_key b'<' ≢ none
unfolding get_keycode_from_cgdb_key
less_than_spelled e = cc

scan_char_normal :
    (k : ℕ) (out : List ℕ)
    → k ≢ b'<'
    → ltb k 128 ≡ true
    → scan_char normal (outside out) k ≡ outside (out ++ k ∷ [])
unfolding scan_char
scan_char_normal k out n h = rw (≢→==_false k b'<' n, h)

-- A key that can be written: by a keycode of its own, or as a character other than 0, which ends a text.
-- The keycode of the key 127 is that of another key.
abbrev has_keycode : Option (List ℕ) → Bool
has_keycode none = false
has_keycode (some w) = true

abbrev pub is_writable : ℕ → Bool
is_writable k =
    not (k == 127) && (has_keycode (get_keycode_from_cgdb_key k) || (ltb 0 k && ltb k 128))

abbrev pub all_writable : List ℕ → Bool
all_writable [] = true
all_writable (k ∷ ks) = is_writable k && all_writable ks

scan_spelled :
    (k : ℕ) (rest out : List ℕ)
    → is_writable k ≡ true
    → scan (outside out) (spell k (get_keycode_from_cgdb_key k) ++ rest)
      ≡ scan (outside (out ++ k ∷ [])) rest
unfolding scan
scan_spelled k rest out h =
    let n : k ≢ 127 = ground (arith, h) in
    elim (Option-cases (get_keycode_from_cgdb_key k)) [
      | inl e ↦
          let small : ltb k 128 ≡ true = ground (arith, rw e at h) in
          rw e (
            ap (λ s. scan s rest)
              (scan_char_normal k out (λ q. less_than_spelled (rw q at e)) small))
      | inr (w, e) ↦
          let (m, g, x) =
            row_of cgdb_keycodes k w table_reads_back (unfold get_keycode_from_cgdb_key in e) n in
          rw e (scan_keycode w rest out k m g x)
    ]

scan-spell_all :
    (ks out : List ℕ)
    → all_writable ks ≡ true
    → scan (outside out) (spell_all ks) ≡ outside (out ++ ks)
unfolding scan
scan-spell_all [] out n = ap outside (sym (append-nil out))
scan-spell_all (k ∷ ks) out n =
    scan_spelled k (spell_all ks) out (ground (arith, n))
    ∙ scan-spell_all ks (out ++ k ∷ []) (ground (arith, n))
    ∙ ap outside (append_assoc out (k ∷ []) ks)

-- Any list of keys, each of which has a keycode or is a character from 1 to 126, written one by one by
-- the keycode that the table gives it, or as itself where the table gives none, is read back as the same
-- list of keys. The key 127 is not among them.
pub string_to_key_array-spell_all :
    (ks : List ℕ) → all_writable ks ≡ true → string_to_key_array (spell_all ks) ≡ ks
unfolding string_to_key_array
string_to_key_array-spell_all ks n = rw (scan-spell_all ks [] n)

-- The keycode of the key 127 is read back as another key.
pub delete_not_read_back : string_to_key_array (spell_all (127 ∷ [])) ≡ 10009 ∷ []
unfolding string_to_key_array get_keycode_from_cgdb_key get_cgdb_key_from_keycode
delete_not_read_back = refl
