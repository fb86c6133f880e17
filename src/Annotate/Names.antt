-- ===== src/Annotate/Names.antt =====
-- lib/tgdb/annotate-two/commands.c: the names of source files in the output of 'info sources'.
use cgdb.Base.{
  free_of, delchar-append, ℕ, Bool, true, false, Option, none, some, List, [], ◌∷◌, ◌++◌,
  append-nil, append_assoc, ◌≡◌, refl, sym, ◌∙◌, ap, arith, ◌&&◌, before_nul, ltb, length, ◌==◌,
}
use cgdb.Annotate.Context.{Commands, info_sources}
use cgdb.Annotate.Commands.{
  is_comma, split_names, commands_process_source_line, sources_line, commands_process_sources,
  commands_process, ends_in,
}

-- What gdb prints between two names.
abbrev pub join : List ℕ → List (List ℕ) → List ℕ
join n [] = n
join n (m ∷ ms) = n ++ b',' ∷ b' ' ∷ join m ms

abbrev pub is_cons : List ℕ → Bool
is_cons [] = false
is_cons (c ∷ cs) = true

-- A name that the line can hold: not empty, without a comma, and without the end of a string.
abbrev pub is_name : List ℕ → Bool
is_name n = is_cons n && free_of b',' n && free_of 0 n

abbrev pub are_names : List (List ℕ) → Bool
are_names [] = true
are_names (n ∷ ns) = is_name n && are_names ns

pub before_nul-free : (n : List ℕ) → free_of 0 n ≡ true → before_nul n ≡ n
before_nul-free [] h = refl
before_nul-free (c ∷ cs) h = ground (arith, before_nul-free cs (ground arith))

is_cons-join : (m : List ℕ) (ms : List (List ℕ)) → is_cons m ≡ true → is_cons (join m ms) ≡ true
is_cons-join [] ms h = ground arith
is_cons-join (c ∷ m) [] h = refl
is_cons-join (c ∷ m) (n ∷ ms) h = refl

-- The last name of a line.
split_last :
    (prev : Option ℕ) (piece n : List ℕ)
    → is_comma prev ≡ false
    → free_of b',' n ≡ true
    → is_cons n ≡ true
    → split_names prev piece n ≡ before_nul (piece ++ n) ∷ []
unfolding split_names
split_last prev piece [] p f c = ground arith
split_last prev piece (a ∷ []) p f c = ground arith
split_last prev piece (a ∷ b ∷ n) p f c = ground (
  arith,
  append_assoc piece (a ∷ []) (b ∷ n),
  split_last (some a) (piece ++ a ∷ []) (b ∷ n) (ground arith) (ground arith) refl,
)

-- A name with another behind it.
split_first :
    (prev : Option ℕ) (piece n rest : List ℕ)
    → is_comma prev ≡ false
    → free_of b',' n ≡ true
    → is_cons rest ≡ true
    → split_names prev piece (n ++ b',' ∷ b' ' ∷ rest)
      ≡ before_nul (piece ++ n) ∷ split_names (some b' ') [] rest
unfolding split_names
split_first prev piece [] [] p f c = ground arith
split_first prev piece [] (d ∷ rest) p f c =
    ground (arith, delchar-append piece b',', append-nil piece)
split_first prev piece (a ∷ []) rest p f c = ground (
  arith,
  append_assoc piece (a ∷ []) [],
  split_first (some a) (piece ++ a ∷ []) [] rest (ground arith) refl c,
  append-nil (piece ++ a ∷ []),
)
split_first prev piece (a ∷ b ∷ n) rest p f c = ground (
  arith,
  append_assoc piece (a ∷ []) (b ∷ n),
  split_first (some a) (piece ++ a ∷ []) (b ∷ n) rest (ground arith) (ground arith) c,
)

split_names-join :
    (prev : Option ℕ) (n : List ℕ) (ns : List (List ℕ))
    → is_comma prev ≡ false
    → is_name n ≡ true
    → are_names ns ≡ true
    → split_names prev [] (join n ns) ≡ n ∷ ns
split_names-join prev n [] p h hs =
    split_last prev [] n p (ground arith) (ground arith)
    ∙ ap (λ x. x ∷ []) (before_nul-free n (ground arith))
split_names-join prev n (m ∷ ms) p h hs =
    split_first prev [] n (join m ms) p (ground arith) (is_cons-join m ms (ground arith))
    ∙ ground (
      arith,
      before_nul-free n (ground arith),
      split_names-join (some b' ') m ms refl (ground arith) (ground arith),
    )

-- The characters of gdb's output one after the other.
abbrev pub process_all : Commands → List ℕ → Commands
process_all c [] = c
process_all c (a ∷ rest) = process_all (commands_process c a) rest

in_line :
    (c : Commands) (a : ℕ)
    → c.cur_command_state ≡ info_sources
    → (a == b'\n') ≡ false
    → commands_process c a ≡ record c { info_sources_string = c.info_sources_string ++ a ∷ [] }
unfolding commands_process commands_process_sources
in_line c a s n = ground arith

line_ends :
    (c : Commands) → c.cur_command_state ≡ info_sources → commands_process c b'\n' ≡ sources_line c
unfolding commands_process
line_ends c s = ground (arith, ending)
  where
    ending : commands_process_sources c b'\n' ≡ sources_line c
    ending =
        unfold commands_process_sources in
        ap (λ x. sources_line (record c { info_sources_string = x }))
          (delchar-append c.info_sources_string b'\n')

process_line :
    (c : Commands) (t : List ℕ)
    → c.cur_command_state ≡ info_sources
    → free_of b'\n' t ≡ true
    → process_all c (t ++ b'\n' ∷ [])
      ≡ sources_line (record c { info_sources_string = c.info_sources_string ++ t })
process_line c [] s f =
    line_ends c s
    ∙ ap (λ x. sources_line (record c { info_sources_string = x }))
        (sym (append-nil c.info_sources_string))
process_line c (a ∷ t) s f =
    ap (λ x. process_all x (t ++ b'\n' ∷ [])) (in_line c a s (ground arith))
    ∙ process_line (record c { info_sources_string = c.info_sources_string ++ a ∷ [] }) t s
        (ground arith)
    ∙ ap (λ x. sources_line (record c { info_sources_string = x }))
        (append_assoc c.info_sources_string (a ∷ []) t)

positive : (t : List ℕ) → is_cons t ≡ true → ltb 0 (length t) ≡ true
positive [] h = ground arith
positive (c ∷ cs) h = ground arith

sources_line-names :
    (c : Commands) (n : List ℕ) (ns : List (List ℕ))
    → c.info_sources_string ≡ join n ns
    → c.sources_ready ≡ true
    → is_name n ≡ true
    → are_names ns ≡ true
    → ends_in b':' (join n ns) ≡ false
    → sources_line c ≡ record c {
      info_sources_string = [];
      inferior_source_files = c.inferior_source_files ++ n ∷ ns;
    }
unfolding sources_line commands_process_source_line
sources_line-names c n ns e r h hs k = ground (
  arith,
  e,
  r,
  split_names-join none n ns refl h hs,
  positive (join n ns) (is_cons-join n ns (ground arith)),
)

-- A line of names with `, ` between them, once the list of sources has begun, adds exactly these names
-- to the source files. No name is empty or has a comma, a newline or a 0 in it, and the line does not
-- end in a colon.
pub process_all-names :
    (c : Commands) (n : List ℕ) (ns : List (List ℕ))
    → c.cur_command_state ≡ info_sources
    → c.info_sources_string ≡ []
    → c.sources_ready ≡ true
    → is_name n ≡ true
    → are_names ns ≡ true
    → free_of b'\n' (join n ns) ≡ true
    → ends_in b':' (join n ns) ≡ false
    → process_all c (join n ns ++ b'\n' ∷ [])
      ≡ record c { inferior_source_files = c.inferior_source_files ++ n ∷ ns }
process_all-names c n ns s b r h hs f k =
    process_line c (join n ns) s f
    ∙ sources_line-names (record c { info_sources_string = c.info_sources_string ++ join n ns }) n
        ns (ap (λ x. x ++ join n ns) b) r h hs k
    ∙ ap
        (λ x. record c {
          info_sources_string = x;
          inferior_source_files = c.inferior_source_files ++ n ∷ ns;
        })
        (sym b)
