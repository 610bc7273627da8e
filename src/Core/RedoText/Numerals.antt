-- ===== src/Core/RedoText/Numerals.antt =====
-- The text of two numbers is parsed back.
use zincsearch.Prelude.{
  ℕ, zero, suc, List, [], ◌∷◌, ◌++◌, All, All-append, true, false, ok, ◌>>=◌, ◌<◌, ◌≤◌, ◌^◌, ◌*◌,
  ◌+◌, ◌/◌, ◌%◌, ◌≡◌, leb, ltb, ◌==◌, length, arith, ap, ◌∙◌, refl, Bool-cases, Result-cases,
  ok_injective, length-append, inl, inr, ◌-◌,
}
use zincsearch.Core.RedoText.{
  decimal, add_digit, parse_from, parse_uint, split, parse_parts, parse_redo_log, redo_text,
}

parse_from-snoc :
    (text : List ℕ) (n m c : ℕ)
    → parse_from n text ≡ ok m
    → parse_from n (text ++ c ∷ []) ≡ (add_digit m c >>= λ x. ok x)
unfolding parse_from
parse_from-snoc [] n m c h = ap (λ x. add_digit x c >>= λ y. ok y) (ok_injective h)
parse_from-snoc (b ∷ text) n m c h = elim (Result-cases (add_digit n b)) [
  | inl (k, e) ↦ let h' = rw e at h in rw e (parse_from-snoc text k m c h')
  | inr (x, e) ↦ let h' = rw e at h in cc h'
]

add_digit-ok : (n d : ℕ) → d < 10 → n * 10 + d < 2 ^ 64 → add_digit n (48 + d) ≡ ok (n * 10 + d)
unfolding add_digit
add_digit-ok n d small fits =
    let low : ltb (48 + d) 48 ≡ false = ground arith in
    let high : ltb 57 (48 + d) ≡ false = ground arith in
    let room : leb (2 ^ 64) (n * 10 + (48 + d - 48)) ≡ false = ground arith in
    rw (low, high, room) (ap ok (omega arith))

parse_from-digit : (n : ℕ) → n < 10 → parse_from 0 ((48 + n) ∷ []) ≡ ok n
unfolding parse_from
parse_from-digit n h = rw (add_digit-ok 0 n h (omega arith)) (ap ok (omega arith))

parse-decimal :
    (fuel n : ℕ) → n < 10 ^ suc fuel → n < 2 ^ 64 → parse_from 0 (decimal (suc fuel) n) ≡ ok n
unfolding decimal
parse-decimal zero n h fits =
    let one : ltb n 10 ≡ true = ground arith in rw one (parse_from-digit n (omega arith))
parse-decimal (suc fuel) n h fits = elim (Bool-cases (ltb n 10)) [
  | inl one ↦ rw one (parse_from-digit n (ground arith))
  | inr more ↦
      let front = parse-decimal fuel (n / 10) (omega arith) (omega arith) in
      let last = add_digit-ok (n / 10) (n % 10) (omega arith) (omega arith) in
      rw more (
        parse_from-snoc (decimal (suc fuel) (n / 10)) 0 (n / 10) (48 + n % 10) front
        ∙ ap (λ r. r >>= λ x. ok x) last
        ∙ ap ok (omega arith))
]

parse_uint-snoc :
    (text : List ℕ) (c : ℕ) → parse_uint (text ++ c ∷ []) ≡ parse_from 0 (text ++ c ∷ [])
unfolding parse_uint
parse_uint-snoc [] c = refl
parse_uint-snoc (b ∷ text) c = refl

parse_uint-parse_from :
    (fuel n : ℕ) → parse_uint (decimal (suc fuel) n) ≡ parse_from 0 (decimal (suc fuel) n)
unfolding decimal parse_uint
parse_uint-parse_from fuel n = elim (Bool-cases (ltb n 10)) [
  | inl one ↦ rw one refl
  | inr more ↦ rw more (parse_uint-snoc (decimal fuel (n / 10)) (48 + n % 10))
]

-- the bytes of the digits
IsDigit : ℕ → Type 0
IsDigit c = (48 ≤ c) × (c ≤ 57)

decimal-IsDigit : (fuel n : ℕ) → All IsDigit (decimal fuel n)
unfolding decimal IsDigit
decimal-IsDigit zero n = tt
decimal-IsDigit (suc fuel) n = elim (Bool-cases (ltb n 10)) [
  | inl one ↦ rw one ((omega arith, ground arith), tt)
  | inr more ↦ rw more (
      All-append IsDigit (decimal fuel (n / 10)) ((48 + n % 10) ∷ [])
        (decimal-IsDigit fuel (n / 10)) ((omega arith, omega arith), tt))
]

length-decimal : (fuel n : ℕ) → length (decimal fuel n) ≤ fuel
unfolding decimal
length-decimal zero n = omega arith
length-decimal (suc fuel) n = elim (Bool-cases (ltb n 10)) [
  | inl one ↦ rw one (omega arith)
  | inr more ↦ rw more (
      omega (
        arith,
        length-append (decimal fuel (n / 10)) ((48 + n % 10) ∷ []),
        length-decimal fuel (n / 10),
      ))
]

split-digits : (text : List ℕ) → All IsDigit text → split text ≡ text ∷ []
unfolding split IsDigit
split-digits [] h = refl
split-digits (c ∷ text) h =
    let other : (c == 58) ≡ false = ground arith in rw (other, split-digits text h.1) refl

split-colon :
    (text more : List ℕ) → All IsDigit text → split (text ++ 58 ∷ more) ≡ text ∷ split more
unfolding split IsDigit
split-colon [] more h = refl
split-colon (c ∷ text) more h =
    let other : (c == 58) ≡ false = ground arith in rw (other, split-colon text more h.1) refl

parse_uint-decimal : (n : ℕ) → n < 2 ^ 64 → parse_uint (decimal 20 n) ≡ ok n
parse_uint-decimal n h = parse_uint-parse_from 19 n ∙ parse-decimal 19 n (omega arith) h

pub parse-redo_text :
    (a b : ℕ) → a < 2 ^ 64 → b < 2 ^ 64 → parse_redo_log (redo_text a b) ≡ ok (a, b)
unfolding parse_redo_log redo_text parse_parts
parse-redo_text a b ha hb =
    ap parse_parts (
      split-colon (decimal 20 a) (decimal 20 b) (decimal-IsDigit 20 a)
      ∙ ap (λ p. decimal 20 a ∷ p) (split-digits (decimal 20 b) (decimal-IsDigit 20 b)))
    ∙ rw (parse_uint-decimal a ha, parse_uint-decimal b hb) refl

pub length-redo_text : (a b : ℕ) → length (redo_text a b) ≤ 64
unfolding redo_text
length-redo_text a b = omega (
  arith,
  length-append (decimal 20 a) (58 ∷ decimal 20 b),
  length-decimal 20 a,
  length-decimal 20 b,
)
