-- ===== src/Core/RedoText.antt =====
-- `writeRedoLog`, `readRedoLog` and `parseRedoLog` of pkg/core/index_shards_wal.go over the redo log of
-- pkg/wal/redo: the records are texts, which are lists of bytes here.
pub mod Numerals
pub mod Laws
use zincsearch.Prelude.{
  ℕ, zero, suc, ◌+◌, ◌-◌, ◌*◌, ◌/◌, ◌%◌, ◌^◌, List, [], ◌∷◌, ◌++◌, Bool, ◌||◌, ltb, leb, ◌==◌,
  Result, ok, err, ◌>>=◌, if◌then◌else◌,
}
use zincsearch.Redo
use zincsearch.Redo.{RedoErr}
use zincsearch.Core.Engine.{CoreErr, not_found, bad_redo, failed}
use zincsearch.Core.Wal.{RedoLog}

-- `%d`, on fuel: a uint64 has 20 digits at most.
unfoldable pub decimal : ℕ → ℕ → List ℕ
decimal zero n = []
decimal (suc fuel) n =
    let front = decimal fuel (n / 10) in
    if ltb n 10 then (48 + n) ∷ [] else front ++ (48 + n % 10) ∷ []

-- One digit of `strconv.ParseUint`, with base 10 and 64 bits.
unfoldable pub add_digit : ℕ → ℕ → Result CoreErr ℕ
add_digit n c =
    if ltb c 48 || ltb 57 c
    then err bad_redo
    else if leb (2 ^ 64) (n * 10 + (c - 48))
    then err bad_redo
    else ok (n * 10 + (c - 48))

unfoldable pub parse_from : ℕ → List ℕ → Result CoreErr ℕ
parse_from n [] = ok n
parse_from n (c ∷ text) = add_digit n c >>= λ m. parse_from m text

-- `strconv.ParseUint`
unfoldable pub parse_uint : List ℕ → Result CoreErr ℕ
parse_uint [] = err bad_redo
parse_uint (c ∷ text) = parse_from 0 (c ∷ text)

prepend : ℕ → List (List ℕ) → List (List ℕ)
prepend c [] = (c ∷ []) ∷ []
prepend c (part ∷ parts) = (c ∷ part) ∷ parts

-- `strings.Split(text, ":")`
unfoldable pub split : List ℕ → List (List ℕ)
unfolding prepend
split [] = [] ∷ []
split (c ∷ text) = let parts = split text in if c == 58 then [] ∷ parts else prepend c parts

unfoldable pub parse_parts : List (List ℕ) → Result CoreErr (ℕ × ℕ)
parse_parts (a ∷ b ∷ []) = parse_uint a >>= λ min_id. parse_uint b >>= λ max_id. ok (min_id, max_id)
parse_parts parts = err bad_redo

-- `parseRedoLog`
unfoldable pub parse_redo_log : List ℕ → Result CoreErr (ℕ × ℕ)
parse_redo_log v = parse_parts (split v)

-- the text that `writeRedoLog` writes
unfoldable pub redo_text : ℕ → ℕ → List ℕ
redo_text min_id max_id = decimal 20 min_id ++ 58 ∷ decimal 20 max_id

abbrev pub core_error : RedoErr → CoreErr
core_error Redo.RedoErr.not_found = not_found
core_error e = failed "redo log"

unfoldable pub of_redo {ℓ} : {A : Type ℓ} → Result RedoErr A → Result CoreErr A
of_redo (ok a) = ok a
of_redo (err e) = err (core_error e)

unfoldable pub read_record : Result RedoErr (List ℕ) → Result CoreErr (ℕ × ℕ)
unfolding of_redo
read_record r = of_redo r >>= parse_redo_log

unfoldable pub write_record :
    Bool → Bool → ℕ → ℕ → ℕ → Redo.Log → Result CoreErr (Unit {0}) × Redo.Log
unfolding of_redo
write_record written synced option min_id max_id l =
    let (r, l') = Redo.write written synced l option (redo_text min_id max_id) in (of_redo r, l')

-- The records of a shard in a redo log, whose file takes what is written or not.
abbrev pub redo_file : Bool → Bool → RedoLog
redo_file written synced = record {
  Log = Redo.Log;
  write = write_record written synced;
  read = λ option l. read_record (Redo.read l option);
}
