-- ===== src/Prelude/Text.antt =====
-- Python's `str` methods that the program calls, over native strings. `lower` and `upper` know the
-- ASCII letters and leave every other character as it is; the program calls them on labels, platform
-- names and document types, which are ASCII.
pub mod Split
use Prim.Native.Char.{Char, code}
use Prim.Native.Nat.{ℕ, zero, suc, ◌+◌, ◌≤◌}
use Prim.Native.String.{String, [], ◌∷◌, ◌++◌, compare}
use text.Mathlib.Text.{is_le}
use mathlib.Core.Path.{◌≡◌}
use mathlib.Core.Bool.{Bool, true, false, not, ◌&&◌, ◌||◌}
use mathlib.Core.Option.{Option, none, some}
use text.Mathlib.TextLemmas.{nil-append, cons-append}
use native.Mathlib.Omega.{arith}
use analysis_srv.Prelude.Tests.{leb, nat_eq, if◌then◌else◌}

-- bool(s)
unfoldable pub non_empty : String → Bool
non_empty [] = false
non_empty (c ∷ s) = true

-- s or ""
unfoldable pub or_empty : Option String → String
or_empty none = ""
or_empty (some s) = s

-- a or b
abbrev pub or_else : String → String → String
or_else a b = if non_empty a then a else b

-- s <= t
abbrev pub not_after : String → String → Bool
not_after s t = is_le (compare s t)

translate : String → String → Char → Char
translate [] to c = c
translate (u ∷ from) [] c = c
translate (u ∷ from) (l ∷ to) c = if nat_eq (code u) (code c) then l else translate from to c

unfoldable pub lower : String → String
unfolding translate
lower [] = []
lower (c ∷ s) = translate "ABCDEFGHIJKLMNOPQRSTUVWXYZ" "abcdefghijklmnopqrstuvwxyz" c ∷ lower s

unfoldable pub upper : String → String
unfolding translate
upper [] = []
upper (c ∷ s) = translate "abcdefghijklmnopqrstuvwxyz" "ABCDEFGHIJKLMNOPQRSTUVWXYZ" c ∷ upper s

unfoldable pub is_space : Char → Bool
is_space c = let n = code c in nat_eq n 32 || (leb 9 n && leb n 13)

unfoldable pub lstrip : String → String
unfolding is_space
lstrip [] = []
lstrip (c ∷ s) = let rest = lstrip s in if is_space c then rest else c ∷ s

unfoldable pub rstrip : String → String
unfolding is_space non_empty
rstrip [] = []
rstrip (c ∷ s) = let r = rstrip s in if not (non_empty r) && is_space c then [] else c ∷ r

unfoldable pub strip : String → String
unfolding lstrip rstrip
strip s = rstrip (lstrip s)

-- len(s) and s[:n], in characters
unfoldable pub len : String → ℕ
len [] = 0
len (c ∷ s) = suc (len s)

unfoldable pub take_chars : ℕ → String → String
take_chars zero s = []
take_chars (suc n) [] = []
take_chars (suc n) (c ∷ s) = c ∷ take_chars n s

unfoldable pub drop_chars : ℕ → String → String
drop_chars zero s = s
drop_chars (suc n) [] = []
drop_chars (suc n) (c ∷ s) = drop_chars n s

pub len-take_chars : (n : ℕ) (s : String) → len (take_chars n s) ≤ n
unfolding len take_chars
len-take_chars zero s = omega arith
len-take_chars (suc n) [] = omega arith
len-take_chars (suc n) (c ∷ s) = omega (arith, len-take_chars n s)

pub len-rstrip : (s : String) → len (rstrip s) ≤ len s
unfolding len rstrip
len-rstrip [] = omega arith
len-rstrip (c ∷ s) = ground (arith, len-rstrip s)

pub len-append : (s t : String) → len (s ++ t) ≡ len s + len t
unfolding len
len-append [] t = rw nil-append (omega arith)
len-append (c ∷ s) t = rw cons-append (omega (arith, len-append s t))

-- s.endswith(c), for one character
unfoldable pub ends_with : String → ℕ → Bool
unfolding non_empty
ends_with [] n = false
ends_with (c ∷ s) n = let rest = ends_with s n in if non_empty s then rest else nat_eq (code c) n

-- s.replace(c, t), for one character
unfoldable pub replace_char : ℕ → String → String → String
replace_char n t [] = []
replace_char n t (c ∷ s) =
    let rest = replace_char n t s in if nat_eq (code c) n then t ++ rest else c ∷ rest
