-- ===== src/Annotate/Position.antt =====
-- lib/tgdb/annotate-two/commands.c: the place in the source where the program stands.
use cgdb.Base.{
  free_of, ℕ, suc, true, some, List, [], ◌∷◌, ◌++◌, append-nil, append_assoc, ◌≡◌, refl, ◌∙◌, ap,
  arith, before_nul, leb, starts_with, drop_prefix, codes, ◌==◌, if◌then◌else◌,
}
use mathlib.Core.List.{reverse, reverse-append, reverse-cons, reverse-reverse}
use cgdb.Annotate.Context.{Commands, Libc, annotate_info_source_relative, tgdb_client_priority}
use cgdb.Annotate.Issue.{
  cut_colons, commands_parse_source, commands_issue_command, commands_create_command,
}
use cgdb.Annotate.Names.{is_cons, before_nul-free}

-- The part of the text up to the next colon, read backwards.
cut_part :
    (libc : Libc) (i : ℕ) (behind number w : List ℕ) (y : ℕ) (r : List ℕ)
    → leb i 3 ≡ true
    → free_of b':' w ≡ true
    → cut_colons libc i behind number (w ++ b':' ∷ y ∷ r)
      ≡ cut_colons libc
          (suc i)
          []
          (if i == 3 then number ++ before_nul (libc.scan_word (reverse w ++ behind)) else number)
          (y ∷ r)
unfolding cut_colons
cut_part libc i behind number [] y r h f = ground (arith, h)
cut_part libc i behind number (x ∷ []) y r h f = ground (arith, h)
cut_part libc i behind number (x ∷ z ∷ w) y r h f = ground (
  arith,
  h,
  reverse-cons x (z ∷ w),
  append_assoc (reverse (z ∷ w)) (x ∷ []) behind,
  cut_part libc i (x ∷ behind) number (z ∷ w) y r h (ground arith),
)

free_of-append :
    (k : ℕ) (xs ys : List ℕ)
    → free_of k xs ≡ true
    → free_of k ys ≡ true
    → free_of k (xs ++ ys) ≡ true
free_of-append k [] ys f g = g
free_of-append k (x ∷ xs) ys f g = ground (arith, free_of-append k xs ys (ground arith) g)

free_of-reverse : (k : ℕ) (xs : List ℕ) → free_of k xs ≡ true → free_of k (reverse xs) ≡ true
free_of-reverse k [] f = refl
free_of-reverse k (x ∷ xs) f = ground (
  arith,
  reverse-cons x xs,
  free_of-append k (reverse xs) (x ∷ []) (free_of-reverse k xs (ground arith)) (ground arith),
)

cut :
    (libc : Libc) (i : ℕ) (number w r : List ℕ)
    → leb i 3 ≡ true
    → free_of b':' w ≡ true
    → is_cons r ≡ true
    → cut_colons libc i [] number (reverse w ++ b':' ∷ r)
      ≡ cut_colons libc
          (suc i)
          []
          (if i == 3 then number ++ before_nul (libc.scan_word w) else number)
          r
cut libc i number w [] h f c = ground arith
cut libc i number w (y ∷ r) h f c =
    cut_part libc i [] number (reverse w) y r h (free_of-reverse b':' w f)
    ∙ ap
        (λ u.
          cut_colons libc (suc i) []
            (if i == 3 then number ++ before_nul (libc.scan_word u) else number) (y ∷ r))
        (append-nil (reverse (reverse w)) ∙ reverse-reverse w)

reverse_colon : (a b : List ℕ) → reverse (a ++ b':' ∷ b) ≡ reverse b ++ b':' ∷ reverse a
reverse_colon a b = ground (
  arith,
  reverse-append a (b':' ∷ b),
  reverse-cons b':' b,
  append_assoc (reverse b) (b':' ∷ []) (reverse a),
)

is_cons-reverse_colon : (a b : List ℕ) → is_cons (reverse (a ++ b':' ∷ b)) ≡ true
is_cons-reverse_colon a b = ap is_cons (reverse_colon a b) ∙ at_colon (reverse b) (reverse a)
  where
    at_colon : (w t : List ℕ) → is_cons (w ++ b':' ∷ t) ≡ true
    at_colon [] t = refl
    at_colon (x ∷ w) t = refl

-- The last field of a text is cut off.
cut_field :
    (libc : Libc) (i : ℕ) (number a b : List ℕ)
    → leb i 3 ≡ true
    → free_of b':' b ≡ true
    → is_cons (reverse a) ≡ true
    → cut_colons libc i [] number (reverse (a ++ b':' ∷ b))
      ≡ cut_colons libc
          (suc i)
          []
          (if i == 3 then number ++ before_nul (libc.scan_word b) else number)
          (reverse a)
cut_field libc i number a b h f c =
    ap (cut_colons libc i [] number) (reverse_colon a b) ∙ cut libc i number b (reverse a) h f c

-- Three fields are cut off, and the fourth is the number.
cut_fields :
    (libc : Libc) (h l ch mid addr : List ℕ)
    → is_cons (reverse h) ≡ true
    → free_of b':' l ≡ true
    → free_of b':' ch ≡ true
    → free_of b':' mid ≡ true
    → free_of b':' addr ≡ true
    → cut_colons libc 0 [] [] (reverse (h ++ b':' ∷ l ++ b':' ∷ ch ++ b':' ∷ mid ++ b':' ∷ addr))
      ≡ cut_colons libc 4 [] (before_nul (libc.scan_word l)) (reverse h)
cut_fields libc h l ch mid addr c fl fc fm fa =
    let a1 = h ++ b':' ∷ l in
    let a2 = a1 ++ b':' ∷ ch in
    cut_field libc 0 [] (a2 ++ b':' ∷ mid) addr refl fa (is_cons-reverse_colon a2 mid)
    ∙ cut_field libc 1 [] a2 mid refl fm (is_cons-reverse_colon a1 ch)
    ∙ cut_field libc 2 [] a1 ch refl fc (is_cons-reverse_colon h l)
    ∙ cut_field libc 3 [] h l refl fl c

-- The scan ends at the fourth colon.
cut_ends : (libc : Libc) (number r : List ℕ) → cut_colons libc 4 [] number r ≡ (reverse r, number)
unfolding cut_colons
cut_ends libc number [] = refl
cut_ends libc number (x ∷ []) = refl
cut_ends libc number (x ∷ y ∷ r) = ground (arith, append-nil (reverse (x ∷ y ∷ r)))

is_cons-reverse : (x : ℕ) (xs : List ℕ) → is_cons (reverse (x ∷ xs)) ≡ true
is_cons-reverse x xs = ap is_cons (reverse-cons x xs) ∙ behind (reverse xs)
  where
    behind : (w : List ℕ) → is_cons (w ++ x ∷ []) ≡ true
    behind [] = refl
    behind (y ∷ w) = refl

-- What `commands_parse_source` finds in the text of a source annotation: the file, which may have
-- colons in it, and the line number, which is the first of the four fields behind it. It asks gdb for
-- the relative path at once, before the other commands that wait. The text has no 0 in it, and the
-- four fields have no colon.
pub parse_source-fields :
    (libc : Libc) (c : Commands) (file l ch mid addr : List ℕ)
    → free_of 0 (codes "source " ++ file ++ b':' ∷ l ++ b':' ∷ ch ++ b':' ∷ mid ++ b':' ∷ addr)
      ≡ true
    → free_of b':' l ≡ true
    → free_of b':' ch ≡ true
    → free_of b':' mid ≡ true
    → free_of b':' addr ≡ true
    → commands_parse_source libc
        (codes "source " ++ file ++ b':' ∷ l ++ b':' ∷ ch ++ b':' ∷ mid ++ b':' ∷ addr)
        c
      ≡ (
        record c { absolute_path = file; line_number = before_nul (libc.scan_word l) },
        some (record {
          tgdb_command_data = codes "server info source\n";
          command_choice = tgdb_client_priority;
          client_private_data = annotate_info_source_relative;
        }),
      )
unfolding commands_parse_source commands_issue_command commands_create_command
parse_source-fields libc c file l ch mid addr z fl fc fm fa =
    let h = codes "source " ++ file in
    let whole = h ++ b':' ∷ l ++ b':' ∷ ch ++ b':' ∷ mid ++ b':' ∷ addr in
    let found : cut_colons libc 0 [] [] (reverse (before_nul whole))
        ≡ (h, before_nul (libc.scan_word l)) =
      ap (λ t. cut_colons libc 0 [] [] (reverse t)) (before_nul-free whole z)
      ∙ cut_fields libc h l ch mid addr (is_cons-reverse b's' (drop_prefix h (codes "s"))) fl fc fm
          fa
      ∙ cut_ends libc (before_nul (libc.scan_word l)) (reverse h)
      ∙ ap (λ t. (t, before_nul (libc.scan_word l))) (reverse-reverse h) in
    ap
      (λ p. (
        record c {
          absolute_path =
              if starts_with p.0 (codes "source ") then drop_prefix p.0 (codes "source ") else [];
          line_number = p.1;
        },
        some (record {
          tgdb_command_data = codes "server info source\n";
          command_choice = tgdb_client_priority;
          client_private_data = annotate_info_source_relative;
        }),
      ))
      found
