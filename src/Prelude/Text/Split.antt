-- ===== src/Prelude/Text/Split.antt =====
-- Texts into lists of texts and back. Whitespace is the space and the characters 9 to 13.
use Prim.Native.Char.{code}
use Prim.Native.Nat.{ℕ}
use Prim.Native.String.{String, [] as no_more, ◌∷◌ as ◌then_char◌, ◌++◌ as ◌+s◌}
use mathlib.Core.Bool.{Bool, true, false, ◌&&◌}
use mathlib.Core.List.{List, [], ◌∷◌}
use analysis_srv.Prelude.Tests.{leb, nat_eq, if◌then◌else◌}
use analysis_srv.Prelude.Text.{non_empty, is_space, len, take_chars}

-- s.split(), with the characters of the word that is being read
unfoldable pub words_onto : String → String → List String
unfolding is_space non_empty
words_onto no_more word = if non_empty word then word ∷ [] else []
words_onto (c then_char s) word = elim (is_space c) [
  | true ↦ let rest = words_onto s no_more in if non_empty word then word ∷ rest else rest
  | false ↦ words_onto s (word +s (c then_char no_more))
]

unfoldable pub words : String → List String
unfolding words_onto
words s = words_onto s no_more

-- separator.join(parts)
unfoldable pub join : String → List String → String
join separator [] = no_more
join separator (part ∷ []) = part
join separator (part ∷ next ∷ rest) = part +s (separator +s join separator (next ∷ rest))

-- s.startswith(prefix)
unfoldable pub starts_with : String → String → Bool
starts_with s no_more = true
starts_with no_more (p then_char prefix) = false
starts_with (c then_char s) (p then_char prefix) = nat_eq (code c) (code p) && starts_with s prefix

-- [s[i:i + n] for i in range(len(s) - n + 1)]
unfoldable pub substrings : ℕ → String → List String
unfolding len take_chars
substrings n no_more = if nat_eq n 0 then no_more ∷ [] else []
substrings n (c then_char s) =
    let rest = substrings n s in
    if leb n (len (c then_char s)) then take_chars n (c then_char s) ∷ rest else rest

-- part in text
unfoldable pub contains : String → String → Bool
contains part no_more = starts_with no_more part
contains part (c then_char text) =
    let rest = contains part text in if starts_with (c then_char text) part then true else rest
