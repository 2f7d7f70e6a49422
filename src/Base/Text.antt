-- ===== src/Base/Text.antt =====
-- Go strings: `strings.ToLower` as far as a comparison with an ASCII text can tell,
-- `strings.Contains`, `strconv.Itoa` and `filepath.Join` of clean parts.
pub mod Digits
use Prim.Native.Nat.{ℕ, zero, suc, ◌+◌, ◌-◌, ◌/◌, ◌%◌, ◌<◌}
use mathlib.Core.Path.{◌≡◌}
use mathlib.Core.Logic.{inl, inr}
use native.Mathlib.Omega.{arith}
use Prim.Native.Char.{Char, code}
use Prim.Native.String.{String, slice, ◌++◌ as ◌<>◌}
use mathlib.Core.Bool.{Bool, true, false, ◌&&◌, ◌||◌}
use mathlib.Core.List.{List, [], ◌∷◌, reverse}
use text.Mathlib.Text.{find?, starts_with}
use union_csi.Base.Equality.{◌==◌, nat_eq, string_eq, leb, ltb, Bool-cases, if◌then◌else◌}
use union_csi.Base.Lists.{is_some, is_empty}

-- The character at a position of a text, or a default.
char_or : String → ℕ → Char → Char
char_or String.[] i d = d
char_or (String.◌∷◌ c s) zero d = c
char_or (String.◌∷◌ c s) (suc i) d = char_or s i d

-- Unicode maps the Kelvin sign and the dotted capital I to ASCII letters. All other characters
-- outside ASCII have a lower case outside ASCII, and stand for it here.
lower_char : Char → Char
lower_char c =
    if leb 65 (code c) && leb (code c) 90
    then char_or "abcdefghijklmnopqrstuvwxyz" (code c - 65) c
    else if code c == 0x212a
    then char_or "k" 0 c
    else if code c == 0x130
    then char_or "i" 0 c
    else c

unfoldable pub to_lower : String → String
unfolding lower_char char_or nat_eq
to_lower String.[] = String.[]
to_lower (String.◌∷◌ c s) = String.◌∷◌ (lower_char c) (to_lower s)

abbrev pub contains_text : String → String → Bool
contains_text s t = is_some (find? s t)

-- The decimal digits of a number, in front of `acc`. A number has fewer digits than its value + 1.
itoa_onto : ℕ → ℕ → String → String
itoa_onto zero n acc = acc
itoa_onto (suc fuel) n acc =
    let acc' = slice "0123456789" (n % 10) (n % 10 + 1) <> acc in
    let rest = itoa_onto fuel (n / 10) acc' in if ltb n 10 then acc' else rest

-- Fuel above the number is enough: with more of it the digits are the same.
itoa_onto_enough :
    (fuel n : ℕ) (acc : String) → n < fuel → itoa_onto (suc fuel) n acc ≡ itoa_onto fuel n acc
unfolding itoa_onto
itoa_onto_enough zero n acc h = absurd (omega arith)
itoa_onto_enough (suc fuel) n acc h = elim (Bool-cases (ltb n 10)) [
  | inl small ↦ ground (arith, small)
  | inr big ↦
      let acc' = slice "0123456789" (n % 10) (n % 10 + 1) <> acc in
      let shorter : n / 10 < fuel = ground (arith, big) in
      rw big (itoa_onto_enough fuel (n / 10) acc' shorter)
]

-- `strconv.Itoa` and `%d` of an index.
unfoldable pub itoa : ℕ → String
unfolding itoa_onto
itoa n = itoa_onto (suc n) n ""

-- One more character in front of a text that is cut at its slashes.
cut : Bool → Char → List String → List String
cut true c parts = "" ∷ parts
cut false c [] = []
cut false c (x ∷ xs) = String.◌∷◌ c x ∷ xs

-- A text cut at each slash.
unfoldable pub split_slash : String → List String
unfolding cut nat_eq
split_slash String.[] = "" ∷ []
split_slash (String.◌∷◌ c s) = cut (code c == b'/') c (split_slash s)

-- `strings.Join`
unfoldable pub join : String → List String → String
join sep [] = ""
join sep (x ∷ []) = x
join sep (x ∷ xs) = x <> (sep <> join sep xs)

clean_up : Bool → List String → List String
clean_up true [] = []
clean_up false [] = ".." ∷ []
clean_up rooted (y ∷ kept) = if y == ".." then ".." ∷ y ∷ kept else kept

-- One part: empty ones and dots go, and two dots take the last name away. Without a name to take
-- away they stay, unless the path begins at the root.
clean_part : Bool → String → List String → List String
clean_part rooted x kept =
    if x == "" || x == "." then kept else if x == ".." then clean_up rooted kept else x ∷ kept

-- The walk of `filepath.Clean` over the parts, with those kept so far in reverse.
clean_onto : Bool → List String → List String → List String
unfolding clean_part clean_up
clean_onto rooted [] kept = reverse kept
clean_onto rooted (x ∷ xs) kept = clean_onto rooted xs (clean_part rooted x kept)

unfoldable pub clean : String → String
unfolding clean_onto split_slash join
clean s =
    let rooted = starts_with s "/" in
    let body = join "/" (clean_onto rooted (split_slash s) []) in
    if rooted then "/" <> body else if body == "" then "." else body

non_empty : List String → List String
non_empty [] = []
non_empty (x ∷ xs) = let rest = non_empty xs in if x == "" then rest else x ∷ rest

-- `filepath.Join`: empty parts are left out, and the rest is cleaned.
unfoldable pub join_path : List String → String
unfolding non_empty clean join
join_path xs = let parts = non_empty xs in if is_empty parts then "" else clean (join "/" parts)

-- `path.IsAbs`
abbrev pub is_abs : String → Bool
is_abs s = starts_with s "/"
