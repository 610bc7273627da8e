-- ===== src/Text.antt =====
-- What the code uses of Go's packages strings and regexp, over the code points of a text. All texts
-- that are tested here are ASCII, where a code point is a byte.
use Prim.Native.Char.{code}
use Prim.Native.String.{◌++◌ as append}
use zincsearch.Prelude.{
  ℕ, zero, suc, ◌/◌, ◌%◌, String, List, [], ◌∷◌, Bool, true, false, ◌&&◌, ◌||◌, ltb, leb, ◌==◌,
}

abbrev pub codes : String → List ℕ
codes String.[] = []
codes (String.◌∷◌ c s) = code c ∷ codes s

-- `a < b` of Go strings: the order of the code points is the order of the UTF-8 bytes.
unfoldable pub codes_lt : List ℕ → List ℕ → Bool
codes_lt [] [] = false
codes_lt [] (b ∷ bs) = true
codes_lt (a ∷ as') [] = false
codes_lt (a ∷ as') (b ∷ bs) = ltb a b || (a == b && codes_lt as' bs)

unfoldable pub str_lt : String → String → Bool
unfolding codes_lt
str_lt s t = codes_lt (codes s) (codes t)

unfoldable pub is_prefix : List ℕ → List ℕ → Bool
is_prefix [] t = true
is_prefix (p ∷ ps) [] = false
is_prefix (p ∷ ps) (c ∷ cs) = p == c && is_prefix ps cs

-- `strings.HasPrefix(s, prefix)`
unfoldable pub has_prefix : String → String → Bool
unfolding is_prefix
has_prefix s prefix = is_prefix (codes prefix) (codes s)

occurs : List ℕ → List ℕ → Bool
unfolding is_prefix
occurs [] p = is_prefix p []
occurs (c ∷ cs) p = is_prefix p (c ∷ cs) || occurs cs p

-- `strings.Contains(s, sub)`
unfoldable pub contains : String → String → Bool
unfolding occurs
contains s sub = occurs (codes s) (codes sub)

unfoldable pub is_alnum : ℕ → Bool
is_alnum c = leb b'A' c && leb c b'Z' || leb b'a' c && leb c b'z' || leb b'0' c && leb c b'9'

unfoldable pub all_codes : (ℕ → Bool) → List ℕ → Bool
all_codes p [] = true
all_codes p (c ∷ cs) = p c && all_codes p cs

abbrev pub cat : String → String → String
cat s t = append s t

-- the decimal digit of a number below 10
unfoldable pub digit : ℕ → String
digit zero = "0"
digit (suc zero) = "1"
digit (suc (suc zero)) = "2"
digit (suc (suc (suc zero))) = "3"
digit (suc (suc (suc (suc zero)))) = "4"
digit (suc (suc (suc (suc (suc zero))))) = "5"
digit (suc (suc (suc (suc (suc (suc zero)))))) = "6"
digit (suc (suc (suc (suc (suc (suc (suc zero))))))) = "7"
digit (suc (suc (suc (suc (suc (suc (suc (suc zero)))))))) = "8"
digit (suc (suc (suc (suc (suc (suc (suc (suc (suc n))))))))) = "9"

-- `%0wd` of a number that has at most `w` digits
unfoldable pub fixed : ℕ → ℕ → String
unfolding digit
fixed zero n = ""
fixed (suc w) n = cat (fixed w (n / 10)) (digit (n % 10))
