-- ===== src/Coordinator/Buffer/BigEndian.antt =====
-- `binary.BigEndian`, which pkg/coordinator/buffer/buffer.go keeps its keys and its counters in, and
-- the order of the bytes, in which the database keeps its keys.
use zincsearch.Prelude.{
  ℕ, zero, suc, ◌+◌, ◌*◌, ◌/◌, ◌%◌, ◌^◌, ◌<◌, List, [], ◌∷◌, Bool, true, false, ltb, arith, ◌≡◌,
  refl, ◌∙◌, if◌then◌else◌, length, All, Bool-cases, inl, inr, ap, sym,
}

abbrev pub Bytes : Type 0
Bytes = List ℕ

be : ℕ → ℕ → Bytes → Bytes
be zero n acc = acc
be (suc w) n acc = be w (n / 256) (n % 256 ∷ acc)

-- `PutUint64`
unfoldable pub be64 : ℕ → Bytes
unfolding be
be64 n = be 8 n []

value : ℕ → Bytes → ℕ
value p [] = p
value p (b ∷ bs) = value (p * 256 + b) bs

-- `Uint64`
unfoldable pub un64 : Bytes → ℕ
unfolding value
un64 bs = value 0 bs

-- `bytes.Compare` below zero
unfoldable pub bytes_lt : Bytes → Bytes → Bool
bytes_lt [] [] = false
bytes_lt [] (b ∷ bs) = true
bytes_lt (a ∷ as') [] = false
bytes_lt (a ∷ as') (b ∷ bs) =
    let rest = bytes_lt as' bs in if ltb a b then true else if ltb b a then false else rest

-- `n` has `w` digits at most.
abbrev Fits : ℕ → ℕ → Type 0
Fits zero n = n ≡ 0
Fits (suc w) n = Fits w (n / 256)

value-be : (w n : ℕ) (acc : Bytes) → Fits w n → value 0 (be w n acc) ≡ value n acc
unfolding be value
value-be zero n acc h = rw h refl
value-be (suc w) n acc h =
    value-be w (n / 256) (n % 256 ∷ acc) h ∙ ap (λ k. value k acc) (omega arith)

length-be : (w n : ℕ) (acc : Bytes) → length (be w n acc) ≡ w + length acc
unfolding be
length-be zero n acc = omega arith
length-be (suc w) n acc = omega (arith, length-be w (n / 256) (n % 256 ∷ acc))

be-bytes : (w n : ℕ) (acc : Bytes) → All (λ b. b < 256) acc → All (λ b. b < 256) (be w n acc)
unfolding be
be-bytes zero n acc h = h
be-bytes (suc w) n acc h = be-bytes w (n / 256) (n % 256 ∷ acc) (omega arith, h)

fits64 : (n : ℕ) → n < 2 ^ 64 → Fits 8 n
fits64 n h = omega arith

value-be64 : (n : ℕ) → n < 2 ^ 64 → value 0 (be64 n) ≡ n
unfolding be64 value
value-be64 n h = value-be 8 n [] (fits64 n h)

pub un64-be64 : (n : ℕ) → n < 2 ^ 64 → un64 (be64 n) ≡ n
unfolding un64
un64-be64 n h = value-be64 n h

pub length-be64 : (n : ℕ) → length (be64 n) ≡ 8
unfolding be64
length-be64 n = length-be 8 n []

-- The more significant digits decide.
value-lt :
    (p q : ℕ) (as' bs : Bytes)
    → p < q
    → length as' ≡ length bs
    → All (λ b. b < 256) as'
    → value p as' < value q bs
unfolding value
value-lt p q [] [] lt e h = lt
value-lt p q [] (b ∷ bs) lt e h = absurd (omega (arith, e))
value-lt p q (a ∷ as') [] lt e h = absurd (omega (arith, e))
value-lt p q (a ∷ as') (b ∷ bs) lt e h =
    let small = h.0 in
    value-lt (p * 256 + a) (q * 256 + b) as' bs (omega arith) (omega (arith, e)) h.1

bytes_lt-value :
    (p : ℕ) (as' bs : Bytes)
    → length as' ≡ length bs
    → All (λ b. b < 256) bs
    → value p as' < value p bs
    → bytes_lt as' bs ≡ true
unfolding value bytes_lt
bytes_lt-value p [] [] e h lt = absurd (omega (arith, lt))
bytes_lt-value p [] (b ∷ bs) e h lt = refl
bytes_lt-value p (a ∷ as') [] e h lt = absurd (omega (arith, e))
bytes_lt-value p (a ∷ as') (b ∷ bs) e h lt = elim (Bool-cases (ltb a b)) [
  | inl less ↦ rw less refl
  | inr nless ↦ elim (Bool-cases (ltb b a)) [
    | inl more ↦
        let wrong =
          value-lt (p * 256 + b) (p * 256 + a) bs as' (ground (arith, more)) (omega (arith, e))
            h.1 in
        absurd (omega (arith, wrong, lt))
    | inr same ↦
        let digit : a ≡ b = ground (arith, nless, same) in
        rw (nless, same)
          (bytes_lt-value (p * 256 + b) as' bs (omega (arith, e)) h.1 (rw digit at lt))
  ]
]

bytes64 : (n : ℕ) → All (λ b. b < 256) (be64 n)
unfolding be64
bytes64 n = be-bytes 8 n [] tt

-- The order of the keys is that of the numbers.
pub be64-lt : (m n : ℕ) → m < n → n < 2 ^ 64 → bytes_lt (be64 m) (be64 n) ≡ true
be64-lt m n lt h =
    bytes_lt-value 0 (be64 m) (be64 n) (length-be64 m ∙ sym (length-be64 n)) (bytes64 n)
      (omega (arith, value-be64 m (omega (arith, lt, h)), value-be64 n h, lt))
