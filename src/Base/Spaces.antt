-- ===== src/Base/Spaces.antt =====
-- `unicode.IsSpace` on the bytes of a string, for strings.TrimSpace and strings.Fields.
use Prim.Native.Nat.{ℕ}
use mathlib.Core.Bool.{Bool, ◌&&◌, ◌||◌}
use mathlib.Core.List.{[], ◌∷◌}
use kvraft.Base.Tests.{leb, ◌==◌, if◌then◌else◌}
use kvraft.Base.Strings.{Bytes}

-- The white space of ASCII.
abbrev pub is_space : ℕ → Bool
is_space c = c == 32 || leb 9 c && leb c 13

-- The white space outside ASCII, in UTF-8: U+0085 and U+00A0 have two bytes.
abbrev is_space_2 : ℕ → ℕ → Bool
is_space_2 b c = b == 0xc2 && (c == 0x85 || c == 0xa0)

-- U+1680, U+2000 to U+200A, U+2028, U+2029, U+202F, U+205F and U+3000 have three.
abbrev is_space_3 : ℕ → ℕ → ℕ → Bool
is_space_3 b c d =
    (b == 0xe1 && (c == 0x9a && d == 0x80))
    || ((b == 0xe2
          && (c == 0x80 && ((leb 0x80 d && leb d 0x8a) || (d == 0xa8 || (d == 0xa9 || d == 0xaf)))))
        || ((b == 0xe2 && (c == 0x81 && d == 0x9f)) || (b == 0xe3 && (c == 0x80 && d == 0x80))))

abbrev pub wide_space : ℕ → Bytes → ℕ
wide_space b [] = 0
wide_space b (c ∷ []) = if is_space_2 b c then 2 else 0
wide_space b (c ∷ d ∷ _) = if is_space_2 b c then 2 else if is_space_3 b c d then 3 else 0

-- `unicode.IsSpace` of the first rune: the number of its bytes, or 0. The first byte of a rune stands
-- nowhere else in UTF-8, so that a line needs no decoding.
unfoldable pub space_width : Bytes → ℕ
space_width [] = 0
space_width (b ∷ line) = if is_space b then 1 else wide_space b line
