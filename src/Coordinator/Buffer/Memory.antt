-- ===== src/Coordinator/Buffer/Memory.antt =====
-- A database in memory that keeps the promises that the buffer relies on.
use zincsearch.Prelude.{
  ℕ, ◌+◌, List, [], ◌∷◌, ◌++◌, Bool, true, false, ◌==◌, ◌&&◌, arith, ◌≡◌, ◌≢◌, refl, sym, ap, subst,
  ◌∙◌, Option, none, some, if◌then◌else◌, Bool-cases, inl, inr,
}
use zincsearch.Coordinator.Buffer.BigEndian.{Bytes}
use zincsearch.Coordinator.Buffer.{Bolt}
use zincsearch.Coordinator.Buffer.Laws.{Laws}

unfoldable pub same_bytes : Bytes → Bytes → Bool
same_bytes [] [] = true
same_bytes [] (b ∷ bs) = false
same_bytes (a ∷ as') [] = false
same_bytes (a ∷ as') (b ∷ bs) = a == b && same_bytes as' bs

pub same_bytes_refl : (bs : Bytes) → same_bytes bs bs ≡ true
unfolding same_bytes
same_bytes_refl [] = refl
same_bytes_refl (b ∷ bs) = ground (arith, same_bytes_refl bs)

pub same_bytes_eq : (as' bs : Bytes) → same_bytes as' bs ≡ true → as' ≡ bs
unfolding same_bytes
same_bytes_eq [] [] h = refl
same_bytes_eq [] (b ∷ bs) h = cc
same_bytes_eq (a ∷ as') [] h = cc
same_bytes_eq (a ∷ as') (b ∷ bs) h =
    let digit : a ≡ b = ground (arith, h) in
    let rest = same_bytes_eq as' bs (ground (arith, h)) in cc (digit, rest)

pub same_bytes_ne : (as' bs : Bytes) → as' ≢ bs → same_bytes as' bs ≡ false
same_bytes_ne as' bs ne = elim (Bool-cases (same_bytes as' bs)) [
  | inl same ↦ absurd (ne (same_bytes_eq as' bs same))
  | inr other ↦ other
]

pub record File : Type 0 where
  pub sequence : ℕ
  pub entries : List (Bytes × Bytes)
  pub counters : Bytes → Option Bytes

abbrev pub without_first : File → List (Bytes × Bytes) → Option File
without_first f [] = none
without_first f (e ∷ es) = some (record f { entries = es })

abbrev pub memory : Bolt
memory = record {
  Db = File;
  next_sequence = λ f. some (f.sequence + 1, record f { sequence = f.sequence + 1 });
  put_item = λ f k v. some (record f { entries = f.entries ++ (k, v) ∷ [] });
  items = λ f. f.entries;
  delete_first = λ f. without_first f f.entries;
  get_meta = λ f k. f.counters k;
  put_meta =
      λ f k v. some (record f { counters = λ j. if same_bytes j k then some v else f.counters j });
  commits = λ f. true;
}

pub unsome : {A : Type 0} {x y : A} → some x ≡ some y → x ≡ y
unsome {A} {x} e = ap (λ (o : Option A). elim o [ none ↦ x | some z ↦ z ]) e

abbrev pub memory_laws : Laws memory
memory_laws = record {
  sequence = λ f. f.sequence;
  next_ok = λ f f' n room e.
      let pair : (f.sequence + 1, record f { sequence = f.sequence + 1 }) ≡ (n, f') = unsome e in
      (
        ap (λ (p : ℕ × File). p.0) (sym pair),
        ap (λ (p : ℕ × File). p.1.sequence) (sym pair) ∙ ap (λ (p : ℕ × File). p.0) pair,
        ap (λ (p : ℕ × File). p.1.entries) (sym pair),
        λ j. ap (λ (p : ℕ × File). p.1.counters j) (sym pair),
      );
  put_item_ok = λ f f' k v before e.
      let eq = unsome e in
      (
        ap (λ (x : File). x.entries) (sym eq),
        ap (λ (x : File). x.sequence) (sym eq),
        λ j. ap (λ (x : File). x.counters j) (sym eq),
      );
  delete_first_ok = λ f f' i rest e gone.
      let eq = unsome (subst (λ l. without_first f l ≡ some f') e gone) in
      (
        ap (λ (x : File). x.entries) (sym eq),
        ap (λ (x : File). x.sequence) (sym eq),
        λ j. ap (λ (x : File). x.counters j) (sym eq),
      );
  put_meta_ok = λ f f' k v e.
      let eq = unsome e in
      (
        ap (λ (x : File). x.entries) (sym eq),
        ap (λ (x : File). x.sequence) (sym eq),
        ap (λ (x : File). x.counters k) (sym eq) ∙ rw (same_bytes_refl k) refl,
        λ j ne. ap (λ (x : File). x.counters j) (sym eq) ∙ rw (same_bytes_ne j k ne) refl,
      );
}
