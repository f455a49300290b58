-- ===== src/Identity/Utf8.antt =====
-- Bytes as Go takes them in internal/identity/catalog.go: `string(input)` read rune by rune, where a
-- byte that begins no valid sequence of UTF-8 stands for U+FFFD, and the cuts of a text of bytes.
use Prim.Native.Char.{Char, char}
use Prim.Native.Nat.{Ordering, compare}
use dovik.Prelude.{
  ℕ, zero, suc, ◌+◌, ◌-◌, ◌*◌, String, ◌≡◌, refl, Bool, true, false, ◌&&◌, List, [], ◌∷◌, leb, ltb,
  nat_beq, if◌then◌else◌,
}
use dovik.Identity.Filter.{Bytes}

-- The character with a code; a code that is none stands for U+FFFD.
abbrev upper_scalar :
    (n : ℕ) (a b : Ordering)
    → compare 57343 n ≡ a
    → compare n 1114112 ≡ b
    → compare n 55296 ≡ Ordering.gt
    → Char
upper_scalar n Ordering.lt Ordering.lt e e' above = char n (rw (above, e, e') tt)
upper_scalar n a b e e' above = char 65533 tt

abbrev scalar : (n : ℕ) (a : Ordering) → compare n 55296 ≡ a → Char
scalar n Ordering.lt e = char n (rw e tt)
scalar n Ordering.eq e = char 65533 tt
scalar n Ordering.gt e = upper_scalar n (compare 57343 n) (compare n 1114112) refl refl e

abbrev pub char_of : ℕ → Char
char_of n = scalar n (compare n 55296) refl

abbrev between : ℕ → ℕ → ℕ → Bool
between low high b = leb low b && leb b high

abbrev invalid : ℕ × ℕ
invalid = (65533, 0)

abbrev two_bytes : ℕ → Bytes → ℕ × ℕ
two_bytes a [] = invalid
two_bytes a (b ∷ rest) = if between 128 191 b then ((a - 192) * 64 + (b - 128), 1) else invalid

-- no longer form of a shorter sequence, and no surrogate
abbrev three_bytes : ℕ → Bytes → ℕ × ℕ
three_bytes a (b ∷ c ∷ rest) =
    if between (if nat_beq a 224 then 160 else 128) (if nat_beq a 237 then 159 else 191) b
      && between 128 191 c
    then ((a - 224) * 4096 + (b - 128) * 64 + (c - 128), 2)
    else invalid
three_bytes a rest = invalid

abbrev four_bytes : ℕ → Bytes → ℕ × ℕ
four_bytes a (b ∷ c ∷ d ∷ rest) =
    if between (if nat_beq a 240 then 144 else 128) (if nat_beq a 244 then 143 else 191) b
      && between 128 191 c
      && between 128 191 d
    then ((a - 240) * 262144 + (b - 128) * 4096 + (c - 128) * 64 + (d - 128), 3)
    else invalid
four_bytes a rest = invalid

-- utf8.DecodeRune: the code at a byte, and how many further bytes it takes
unfoldable pub rune_at : ℕ → Bytes → ℕ × ℕ
rune_at a rest =
    if ltb a 128
    then (a, 0)
    else if between 194 223 a
    then two_bytes a rest
    else if between 224 239 a
    then three_bytes a rest
    else if between 240 244 a
    then four_bytes a rest
    else invalid

abbrev at_index : ℕ → List String → String
at_index n [] = ""
at_index zero (text ∷ rest) = text
at_index (suc n) (text ∷ rest) = at_index n rest

-- the texts of all ends of the bytes, the whole first
unfoldable pub texts_of : Bytes → List String
unfolding rune_at
texts_of [] = "" ∷ []
texts_of (a ∷ rest) =
    let later = texts_of rest in
    let (n, further) = rune_at a rest in String.◌∷◌ (char_of n) (at_index further later) ∷ later

unfoldable pub text_of : Bytes → String
unfolding texts_of
text_of bytes = at_index 0 (texts_of bytes)

abbrev push_byte : ℕ → List Bytes → List Bytes
push_byte a [] = (a ∷ []) ∷ []
push_byte a (line ∷ lines) = (a ∷ line) ∷ lines

-- strings.Split at a byte
unfoldable pub split_bytes : ℕ → Bytes → List Bytes
split_bytes separator [] = [] ∷ []
split_bytes separator (a ∷ rest) =
    let lines = split_bytes separator rest in
    if nat_beq a separator then [] ∷ lines else push_byte a lines

-- strings.Cut at a byte
unfoldable pub cut_bytes : ℕ → Bytes → Bytes × Bytes × Bool
cut_bytes separator [] = ([], [], false)
cut_bytes separator (a ∷ rest) =
    let (before, after, found) = cut_bytes separator rest in
    if nat_beq a separator then ([], rest, true) else (a ∷ before, after, found)
