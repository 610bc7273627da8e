-- ===== src/Zutils/Base62.antt =====
-- pkg/zutils/base62/base62.go: numbers in base 62. A text is the list of its bytes; an int64 that is
-- not negative is itself, and a negative one is 2 ^ 64 more. `pow62 e` is `int64(math.Pow(62, e))`.
pub mod RoundTrip
use zincsearch.Prelude.{
  ℕ, zero, suc, ◌+◌, ◌-◌, ◌*◌, ◌/◌, ◌%◌, ◌^◌, List, [], ◌∷◌, ◌++◌, Option, none, some, length,
  get_elem?, if◌then◌else◌, ◌==◌,
}

-- the 62 digits
abbrev pub chars : List ℕ
chars =
    48 ∷ 49 ∷ 50 ∷ 51 ∷ 52 ∷ 53 ∷ 54 ∷ 55 ∷ 56 ∷ 57 ∷ 97 ∷ 98 ∷ 99 ∷ 100 ∷ 101 ∷ 102 ∷ 103 ∷ 104
    ∷ 105 ∷ 106 ∷ 107 ∷ 108 ∷ 109 ∷ 110 ∷ 111 ∷ 112 ∷ 113 ∷ 114 ∷ 115 ∷ 116 ∷ 117 ∷ 118 ∷ 119 ∷ 120
    ∷ 121 ∷ 122 ∷ 65 ∷ 66 ∷ 67 ∷ 68 ∷ 69 ∷ 70 ∷ 71 ∷ 72 ∷ 73 ∷ 74 ∷ 75 ∷ 76 ∷ 77 ∷ 78 ∷ 79 ∷ 80 ∷ 81
    ∷ 82 ∷ 83 ∷ 84 ∷ 85 ∷ 86 ∷ 87 ∷ 88 ∷ 89 ∷ 90 ∷ []

byte_or_zero : Option ℕ → ℕ
byte_or_zero none = 0
byte_or_zero (some b) = b

-- `chars[n]`, for n below 62
unfoldable pub char_at : ℕ → ℕ
unfolding byte_or_zero
char_at n = byte_or_zero (get_elem? chars n)

-- `strings.IndexByte`, −1 where the byte is not there
unfoldable pub index_byte : List ℕ → ℕ → ℕ → ℕ
index_byte [] i b = 2 ^ 64 - 1
index_byte (c ∷ cs) i b = let rest = index_byte cs (i + 1) b in if c == b then i else rest

-- The loop of `Encode`, on fuel: the digits from the last to the first.
unfoldable pub digits : ℕ → ℕ → List ℕ
digits zero num = []
digits (suc fuel) num =
    let rest = digits fuel (num / 62) in if num == 0 then [] else char_at (num % 62) ∷ rest

-- the bytes in the opposite order
unfoldable pub reverse : List ℕ → List ℕ
reverse [] = []
reverse (b ∷ bytes) = reverse bytes ++ b ∷ []

-- `Encode`, of a number that is not negative: an int64 has 11 digits at most.
unfoldable pub encode : ℕ → List ℕ
unfolding digits reverse
encode num = reverse (digits 11 num)

module _ (pow62 : ℕ → ℕ) where
  -- the loop of `Decode`, over the bytes from the i-th on
  unfoldable pub decode_from : ℕ → ℕ → ℕ → List ℕ → ℕ
  decode_from n i num [] = num
  decode_from n i num (b ∷ str) =
      decode_from n (i + 1) ((num + pow62 (n - i - 1) * index_byte chars 0 b) % 2 ^ 64) str

  -- `Decode`
  unfoldable pub decode : List ℕ → ℕ
  unfolding decode_from
  decode str = decode_from (length str) 0 0 str
