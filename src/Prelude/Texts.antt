-- ===== src/Prelude/Texts.antt =====
-- Texts: order, sorting, and the functions of Go's `path/filepath` for Unix that the code uses.
use Prim.Native.Nat.{ℕ}
use Prim.Native.Char.{code}
use Prim.Native.String.{String, ◌++◌ as text_append, compare}
use mathlib.Core.Bool.{Bool, false, ◌||◌}
use mathlib.Core.List.{List, [], ◌∷◌, reverse}
use text.Mathlib.Text.{is_le}
use dovik.Prelude.Tests.{nat_beq, ◌==◌, string_eq, if◌then◌else◌}

infixr 66 ◌⧺◌
abbrev pub ◌⧺◌ : String → String → String
s ⧺ t = text_append s t

-- sort.Strings
unfoldable pub insert_sorted : String → List String → List String
insert_sorted s [] = s ∷ []
insert_sorted s (t ∷ ts) = if is_le (compare s t) then s ∷ t ∷ ts else t ∷ insert_sorted s ts

unfoldable pub sort_strings : List String → List String
unfolding insert_sorted
sort_strings [] = []
sort_strings (s ∷ ss) = insert_sorted s (sort_strings ss)

-- strings.Join(texts, separator)
unfoldable pub join_with : String → List String → String
join_with separator [] = ""
join_with separator (s ∷ []) = s
join_with separator (s ∷ t ∷ ts) = s ⧺ separator ⧺ join_with separator (t ∷ ts)

-- filepath.IsAbs
unfoldable pub is_abs : String → Bool
is_abs String.[] = false
is_abs (String.◌∷◌ c s) = nat_beq (code c) b'/'

abbrev push_char : String → List String → List String
push_char c [] = c ∷ []
push_char c (s ∷ ss) = (c ⧺ s) ∷ ss

-- strings.Split(text, c) for the character with code `c`
unfoldable pub split_on : ℕ → String → List String
split_on separator String.[] = "" ∷ []
split_on separator (String.◌∷◌ c s) =
    let rest = split_on separator s in
    if nat_beq (code c) separator then "" ∷ rest else push_char (String.◌∷◌ c String.[]) rest

-- One path element onto the elements kept so far, the last one first.
abbrev clean_element : Bool → String → List String → List String
clean_element rooted element [] =
    if element == "" || element == "."
    then []
    else if element == ".."
    then (if rooted then [] else ".." ∷ [])
    else element ∷ []
clean_element rooted element (last ∷ kept) =
    if element == "" || element == "."
    then last ∷ kept
    else if element == ".."
    then (if last == ".." then ".." ∷ last ∷ kept else kept)
    else element ∷ last ∷ kept

clean_elements : Bool → List String → List String → List String
clean_elements rooted kept [] = reverse kept
clean_elements rooted kept (e ∷ es) = clean_elements rooted (clean_element rooted e kept) es

-- filepath.Clean
unfoldable pub clean : String → String
unfolding clean_elements split_on join_with is_abs
clean path =
    let body = join_with "/" (clean_elements (is_abs path) [] (split_on b'/' path)) in
    if is_abs path then "/" ⧺ body else if body == "" then "." else body

-- filepath.Join of two elements
unfoldable pub join_path : String → String → String
unfolding clean
join_path a b = if a == "" then (if b == "" then "" else clean b) else clean (a ⧺ "/" ⧺ b)
