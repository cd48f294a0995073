-- ===== src/Prelude/Text.antt =====
-- Texts: whitespace and letters as `str` methods see them, and decimal numerals.
use Prim.Native.Nat.{ℕ, suc}
use Prim.Native.Char.{code}
use Prim.Native.String.{String}
use mathlib.Core.Bool.{Bool, true, false, not, ◌&&◌, ◌||◌}
use financial_engineering_sk.Prelude.Tests.{leb, nat_beq}

abbrev between : ℕ → ℕ → ℕ → Bool
between lo hi c = leb lo c && leb c hi

-- str.isspace of one character
abbrev pub is_space : ℕ → Bool
is_space c =
    between 9 13 c
    || between 28 32 c
    || nat_beq c 0x85
    || nat_beq c 0xa0
    || nat_beq c 0x1680
    || between 0x2000 0x200a c
    || between 0x2028 0x2029 c
    || nat_beq c 0x202f
    || nat_beq c 0x205f
    || nat_beq c 0x3000

-- not s.strip()
unfoldable pub is_blank : String → Bool
is_blank String.[] = true
is_blank (String.◌∷◌ c s) = is_space (code c) && is_blank s

abbrev is_upper_letter : ℕ → Bool
is_upper_letter c = between b'A' b'Z' c

abbrev is_lower_letter : ℕ → Bool
is_lower_letter c = between b'a' b'z' c

-- len(s)
abbrev pub text_length : String → ℕ
text_length String.[] = 0
text_length (String.◌∷◌ c s) = suc (text_length s)

abbrev all_letters : String → Bool
all_letters String.[] = true
all_letters (String.◌∷◌ c s) =
    (is_upper_letter (code c) || is_lower_letter (code c)) && all_letters s

abbrev some_upper : String → Bool
some_upper String.[] = false
some_upper (String.◌∷◌ c s) = is_upper_letter (code c) || some_upper s

abbrev no_lower : String → Bool
no_lower String.[] = true
no_lower (String.◌∷◌ c s) = not (is_lower_letter (code c)) && no_lower s

-- s.isalpha(), of an ASCII text
unfoldable pub is_alpha : String → Bool
is_alpha s = not (nat_beq (text_length s) 0) && all_letters s

-- s.isupper(), of an ASCII text
unfoldable pub is_upper : String → Bool
is_upper s = some_upper s && no_lower s
