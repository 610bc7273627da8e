-- ===== src/Zutils/Base62/RoundTrip.antt =====
-- `Decode` reads what `Encode` writes.
use zincsearch.Prelude.{
  ◌≡◌, Bool, length, true, ◌++◌, ◌<◌, ◌∷◌, [], arith, refl, suc, ◌^◌, ◌≤◌, zero, ◌*◌, ◌+◌, ◌==◌,
  ◌%◌, ◌&&◌, Bool-cases, ap, false, length-append, ◌-◌, ◌/◌, ◌∙◌, inl, ltb, inr, ltb→lt, sym,
  ==_iff, subst,
}
use zincsearch.Zutils.Base62.{
  chars, char_at, index_byte, digits, reverse, encode, decode_from, decode, List, ℕ,
}

-- Every digit is found where it stands.
digits_found : ℕ → Bool
digits_found zero = true
digits_found (suc n) = (index_byte chars 0 (char_at n) == n) && digits_found n

all_found : digits_found 62 ≡ true
unfolding digits_found index_byte char_at
all_found = refl

both : (a b : Bool) → (a && b) ≡ true → (a ≡ true) × (b ≡ true)
both true b h = (refl, h)
both false b h = cc h

below_found : (m n : ℕ) → digits_found m ≡ true → n < m → index_byte chars 0 (char_at n) ≡ n
unfolding digits_found
below_found zero n h lt = omega arith
below_found (suc m) n h lt =
    let (last, before) = both (index_byte chars 0 (char_at m) == m) (digits_found m) h in
    elim (Bool-cases (ltb n m)) [
      | inl less ↦ below_found m n before (ltb→lt n m less)
      | inr more ↦
          let same : m ≡ n = ground arith in
          subst (λ x. index_byte chars 0 (char_at x) ≡ x) same ((==_iff _ m).0 last)
    ]

-- the number that the bytes stand for, the first being the highest digit
value : List ℕ → ℕ
value [] = 0
value (b ∷ str) = 62 ^ length str * index_byte chars 0 b + value str

value-snoc : (str : List ℕ) (b : ℕ) → value (str ++ b ∷ []) ≡ 62 * value str + index_byte chars 0 b
unfolding value
value-snoc [] b = omega arith
value-snoc (c ∷ str) b =
    let longer : length (str ++ b ∷ []) ≡ suc (length str) =
      omega (arith, length-append str (b ∷ [])) in
    let weight : 62 ^ length (str ++ b ∷ []) ≡ 62 ^ length str * 62 =
      ap (λ l. 62 ^ l) longer ∙ omega arith in
    let rest = value-snoc str b in rw weight (omega (arith, rest))

value-encode : (fuel num : ℕ) → num < 62 ^ fuel → value (reverse (digits fuel num)) ≡ num
unfolding digits reverse value
value-encode zero num h = omega arith
value-encode (suc fuel) num h = elim (Bool-cases (num == 0)) [
  | inl done ↦ rw done (sym ((==_iff num 0).0 done))
  | inr more ↦
      let rest : value (reverse (digits fuel (num / 62))) ≡ num / 62 =
        value-encode fuel (num / 62) (omega arith) in
      let digit : index_byte chars 0 (char_at (num % 62)) ≡ num % 62 =
        below_found 62 (num % 62) all_found (omega arith) in
      rw more (
        value-snoc (reverse (digits fuel (num / 62))) (char_at (num % 62))
        ∙ omega (arith, rest, digit))
]

length-reverse : (bytes : List ℕ) → length (reverse bytes) ≡ length bytes
unfolding reverse
length-reverse [] = refl
length-reverse (b ∷ bytes) =
    length-append (reverse bytes) (b ∷ []) ∙ omega (arith, length-reverse bytes)

length-digits : (fuel num : ℕ) → length (digits fuel num) ≤ fuel
unfolding digits
length-digits zero num = omega arith
length-digits (suc fuel) num =
    let rest = length-digits fuel (num / 62) in
    elim (Bool-cases (num == 0)) [
      | inl done ↦ rw done (omega arith)
      | inr more ↦ rw more (omega (arith, rest))
    ]

length-encode : (num : ℕ) → length (encode num) ≤ 11
unfolding encode
length-encode num = omega (arith, length-reverse (digits 11 num), length-digits 11 num)

encode-value : (num : ℕ) → num < 2 ^ 63 → value (encode num) ≡ num
unfolding encode
encode-value num h = value-encode 11 num (omega arith)

module _ (pow62 : ℕ → ℕ) (exact : (e : ℕ) → e < 11 → pow62 e ≡ 62 ^ e) where
  decode_from-value :
      (n i num : ℕ) (str : List ℕ)
      → n ≡ i + length str
      → n ≤ 11
      → num < 2 ^ 64
      → decode_from pow62 n i num str ≡ (num + value str) % 2 ^ 64
  unfolding decode_from value
  decode_from-value n i num [] e h w = omega arith
  decode_from-value n i num (b ∷ str) e h w =
      let power : pow62 (n - i - 1) ≡ 62 ^ length str =
        exact (n - i - 1) (omega arith) ∙ ap (λ l. 62 ^ l) (omega arith) in
      let next = (num + pow62 (n - i - 1) * index_byte chars 0 b) % 2 ^ 64 in
      decode_from-value n (i + 1) next str (omega arith) h (omega arith) ∙ rw power (omega arith)

  -- A number of an int64 that is not negative is read back from its text, which has at most 11
  -- bytes, where the powers of 62 below the 11th are exact.
  pub decode-encode :
      (num : ℕ) → num < 2 ^ 63 → (decode pow62 (encode num) ≡ num) × (length (encode num) ≤ 11)
  unfolding decode
  decode-encode num h = (
    decode_from-value (length (encode num)) 0 0 (encode num) (omega arith) (length-encode num)
          (omega arith)
        ∙ omega (arith, encode-value num h),
    length-encode num,
  )
