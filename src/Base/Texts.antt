-- ===== src/Base/Texts.antt =====
-- A text is the list of the codes of its characters, all ASCII.
use Prim.Native.Nat.{ℕ}
use Prim.Native.Char.{code}
use Prim.Native.String.{String}
use mathlib.Core.Bool.{Bool, true, false, ◌&&◌, not}
use mathlib.Core.List.{List, [], ◌∷◌, ◌++◌}
use mathlib.Core.Path.{◌≡◌, refl, ap}
use cgdb.Base.Tests.{◌==◌, if◌then◌else◌}

abbrev pub codes : String → List ℕ
codes String.[] = []
codes (String.◌∷◌ c s) = code c ∷ codes s

-- What a C string function reads of an array: up to the first 0.
abbrev pub before_nul : List ℕ → List ℕ
before_nul [] = []
before_nul (k ∷ ks) = if k == 0 then [] else k ∷ before_nul ks

-- The character does not stand in the text.
abbrev pub free_of : ℕ → List ℕ → Bool
free_of k [] = true
free_of k (c ∷ cs) = not (c == k) && free_of k cs

-- `strncmp (text, prefix, strlen (prefix)) == 0`.
abbrev pub starts_with : List ℕ → List ℕ → Bool
starts_with text [] = true
starts_with [] (p ∷ ps) = false
starts_with (c ∷ text) (p ∷ ps) = c == p && starts_with text ps

-- `text + n`.
abbrev pub drop_prefix : List ℕ → List ℕ → List ℕ
drop_prefix text [] = text
drop_prefix [] (p ∷ ps) = []
drop_prefix (c ∷ text) (p ∷ ps) = drop_prefix text ps

-- A text without its last character, as `ibuf_delchar` leaves it.
abbrev pub delchar : List ℕ → List ℕ
delchar [] = []
delchar (x ∷ []) = []
delchar (x ∷ y ∷ r) = x ∷ delchar (y ∷ r)

pub delchar-append : (xs : List ℕ) (c : ℕ) → delchar (xs ++ c ∷ []) ≡ xs
delchar-append [] c = refl
delchar-append (x ∷ []) c = refl
delchar-append (x ∷ y ∷ r) c = ap (λ t. x ∷ t) (delchar-append (y ∷ r) c)
