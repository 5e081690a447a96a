-- ===== src/Kaleidoscope/Chars.antt =====
-- Bytes and the tests of <cctype> in the "C" locale, which kaleidoscope/src/lexer.cpp and
-- kaleidoscope/src/parser.cpp call.
use Prim.Native.Char.{code}
use Prim.Native.String.{String}
use llvm17_learning_repo.Common.{ℕ, Bool, true, false, ◌&&◌, ◌||◌, List, [], ◌∷◌, ltb, leb, ◌==◌}

-- A std::string of bytes.
abbrev pub Bytes : Type 0
Bytes = List ℕ

-- The bytes of an ASCII literal.
abbrev pub codes : String → Bytes
codes String.[] = []
codes (String.◌∷◌ c s) = code c ∷ codes s

-- operator== of std::string.
abbrev pub bytes_eq : Bytes → Bytes → Bool
bytes_eq [] [] = true
bytes_eq [] (_ ∷ _) = false
bytes_eq (_ ∷ _) [] = false
bytes_eq (a ∷ xs) (b ∷ ys) = a == b && bytes_eq xs ys

unfoldable pub is_space : ℕ → Bool
is_space c = c == 32 || (leb 9 c && leb c 13)

unfoldable pub is_digit : ℕ → Bool
is_digit c = leb b'0' c && leb c b'9'

unfoldable pub is_alpha : ℕ → Bool
is_alpha c = (leb b'A' c && leb c b'Z') || (leb b'a' c && leb c b'z')

unfoldable pub is_alnum : ℕ → Bool
unfolding is_alpha is_digit
is_alnum c = is_alpha c || is_digit c

-- isascii of a byte.
unfoldable pub is_ascii : ℕ → Bool
is_ascii c = ltb c 128
