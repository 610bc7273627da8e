-- ===== src/Core/Merge/Settled.antt =====
-- Where a batch of log entries leaves each document.
use zincsearch.Prelude.{
  ℕ, zero, suc, ◌<◌, ◌≡◌, ◌≢◌, ◌-◌, List, [], ◌∷◌, Bool, true, false, none, some, ok, String,
  length, if◌then◌else◌, ◌==◌, arith, refl, subst, Bool-cases, inl, ==_iff, append-nil, inr, ◌∙◌,
  Option-cases, ◌⊎◌, sym, ◌++◌,
}
use zincsearch.Prelude.Int.{ℤ, pos, negsuc}
use zincsearch.Dict.{Dict}
use zincsearch.Dict
use zincsearch.Core.Engine.{Engine, Laws, Op, Action, insert, drops, adds}
use zincsearch.Core.Shards.{latest_shard_id}
use zincsearch.Core.Merge.{
  MergeDocs, WalDocument, RangeOrder, Ops, write_docs, write_to_shard, target, same_id, group_at,
  collect, last_of, doc_ops, group_or_new, write_every, split_last,
}
use zincsearch.Core.Merge.Gathered.{IsMap, IsGroups, doc_in, no_group-doc_in, group_of}
use zincsearch.Core.Merge.Batches.{
  after_batch, SameBoth, Same, Known, settled, collect-touched, collect-untouched, doc_ops-settled,
  doc_ops-added,
}
use zincsearch.Core.Merge.Writing.{docs_at, Wrote, write_one-Wrote, write_every-Wrote}

-- A `range` visits every key of a map once.
pub record IsRange {D : Type 0} (range : RangeOrder D) : Type 0 where
  pub docs_get : (m : Dict (WalDocument D)) (k : String) → Dict.get (range.docs m) k ≡ Dict.get m k
  pub docs_IsMap : (m : Dict (WalDocument D)) → IsMap m → IsMap (range.docs m)
  pub groups_at : (w : MergeDocs D) (s : ℤ) → group_at s (range.groups w) ≡ group_at s w
  pub groups_IsGroups : (w : MergeDocs D) → IsGroups w → IsGroups (range.groups w)

-- the shard that holds the documents of a group, of `n` shards
unfoldable pub home : ℤ → ℕ → ℕ
home (pos m) n = m
home (negsuc m) n = n - 1

-- whether a group is written to all shards
unfoldable pub everywhere : ℤ → Bool
everywhere (pos m) = false
everywhere (negsuc zero) = false
everywhere (negsuc (suc m)) = true

module _ (ε : Engine) (law : Laws ε) where
  open ε use {Index, Content, Data, build}

  latest-pos : (xs : List Index) → (n : ℕ) → length xs ≡ suc n → latest_shard_id xs ≡ pos n
  unfolding latest_shard_id
  latest-pos xs n h = ground arith

  no_shards :
      (built : Ops ε) (ys : List Index)
      → ¬ (write_docs ε (target ε (negsuc 0) []) built [] ≡ (ok tt, ys))
  unfolding write_docs write_every split_last target latest_shard_id same_id
  no_shards built ys h = cc

  write_docs-Wrote :
      (s : ℤ) (built : Ops ε) (xs ys : List Index)
      → write_docs ε (target ε s xs) built xs ≡ (ok tt, ys)
      → (ops : List (Op Content) × List (Op Content)) × (built ≡ ok ops)
        × Wrote ε (home s (length xs)) (everywhere s) ops xs ys
  unfolding write_docs target home everywhere same_id
  write_docs-Wrote (pos n) built xs ys h = write_one-Wrote ε law n built xs ys (ground arith)
  write_docs-Wrote (negsuc zero) built [] ys h = absurd (no_shards built ys h)
  write_docs-Wrote (negsuc zero) built (x ∷ xs) ys h =
      let id = latest-pos (x ∷ xs) (length xs) refl in
      let (ops, made, wrote) = write_one-Wrote ε law (length xs) built (x ∷ xs) ys (ground arith) in
      (ops, made, subst (λ l. Wrote ε l false ops (x ∷ xs) ys) (omega arith) wrote)
  write_docs-Wrote (negsuc (suc n)) built xs ys h =
      write_every-Wrote ε law built xs ys (ground arith)

  -- what a batch that does nothing to a document leaves
  after_batch-untouched :
      (k : String) (ops : List (Op Content)) (x : List Content)
      → Same k ops []
      → after_batch k ops x ≡ x
  unfolding after_batch drops adds
  after_batch-untouched k ops x h = ground (arith, append-nil x)

  after_batch-Same :
      (k : String) (a b : List (Op Content)) (x : List Content)
      → Same k a b
      → after_batch k a x ≡ after_batch k b x
  unfolding after_batch
  after_batch-Same k a b x h = ground arith

  -- The documents of an id are as they were.
  abbrev pub Kept : String → List Index → List Index → Type 0
  Kept k xs ys =
      (length ys ≡ length xs) × ((j : ℕ) → j < length xs → docs_at ε k j ys ≡ docs_at ε k j xs)

  Wrote-Kept :
      (k : String) (h : ℕ) (all : Bool) (ops : List (Op Content) × List (Op Content))
      (xs ys : List Index)
      → Wrote ε h all ops xs ys
      → SameBoth k ops ([], [])
      → Kept k xs ys
  Wrote-Kept k h all ops xs ys wrote same = (wrote.same_length, each)
    where
      each : (j : ℕ) → j < length xs → docs_at ε k j ys ≡ docs_at ε k j xs
      each j l = elim (Bool-cases (j == h)) [
        | inl here ↦
            rw ((==_iff j h).0 here)
              (wrote.at_home k ∙ after_batch-untouched k ops.0 (docs_at ε k h xs) same.0)
        | inr there ↦
            wrote.elsewhere k j l (ground arith)
            ∙ ground (arith, after_batch-untouched k ops.1 (docs_at ε k j xs) same.1)
      ]

  -- A document that was written once is at home, and nowhere else.
  abbrev pub Placed : String → ℕ → List Content → List Index → Type 0
  Placed k h docs xs = (j : ℕ) → j < length xs → docs_at ε k j xs ≡ (if j == h then docs else [])

  Wrote-Placed :
      (k : String) (h : ℕ) (all : Bool) (ops o : List (Op Content) × List (Op Content))
      (c : Content) (first : Action) (rest : List Action) (xs ys : List Index)
      → Wrote ε h all ops xs ys
      → SameBoth k ops o
      → doc_ops k c (first ∷ rest) ≡ ok o
      → Known (last_of first rest)
      → (first ≡ insert → (j : ℕ) → docs_at ε k j xs ≡ [])
      → (all ≡ false → (j : ℕ) → j ≢ h → docs_at ε k j xs ≡ [])
      → Placed k h (settled (last_of first rest) c) ys
  Wrote-Placed k h all ops o c first rest xs ys wrote same made known fresh alone j l =
      elim (Bool-cases (j == h)) [
        | inl here ↦
            rw here (subst (λ i. docs_at ε k i ys ≡ last) (sym ((==_iff j h).0 here)) at_home)
        | inr there ↦ rw there (away (ground arith) (Bool-cases all))
      ]
    where
      last : List Content
      last = settled (last_of first rest) c

      left :
          (after_batch k o.0 (docs_at ε k h xs) ≡ last)
          × (after_batch k o.1 (docs_at ε k j xs) ≡ [])
      left =
          doc_ops-settled k c first rest o (docs_at ε k h xs) (docs_at ε k j xs) made known
            (λ e. (fresh e h, fresh e j))

      at_home : docs_at ε k h ys ≡ last
      at_home = wrote.at_home k ∙ after_batch-Same k ops.0 o.0 (docs_at ε k h xs) same.0 ∙ left.0

      away : j ≢ h → (all ≡ true) ⊎ (all ≡ false) → docs_at ε k j ys ≡ []
      away d (inl every) =
          wrote.elsewhere k j (rw (← wrote.same_length) l) d
          ∙ rw every (after_batch-Same k ops.1 o.1 (docs_at ε k j xs) same.1 ∙ left.1)
      away d (inr one) = wrote.elsewhere k j (rw (← wrote.same_length) l) d ∙ rw one (alone one j d)

  module _ (range : RangeOrder Data) (ranges : IsRange range) where
    -- One group of the loop.
    write_to_shard-Wrote :
        (w : MergeDocs Data) (s : ℤ) (docs : Dict (WalDocument Data)) (xs ys : List Index)
        → group_at s w ≡ some docs
        → write_to_shard ε range w s xs ≡ (ok tt, ys)
        → (ops : List (Op Content) × List (Op Content)) × (collect ε (range.docs docs) ≡ ok ops)
          × Wrote ε (home s (length xs)) (everywhere s) ops xs ys
    unfolding write_to_shard
    write_to_shard-Wrote w s docs xs ys there h =
        write_docs-Wrote s (collect ε (range.docs docs)) xs ys (ground arith)

    pub group_at-IsMap :
        (w : MergeDocs Data) (s : ℤ) (docs : Dict (WalDocument Data))
        → IsGroups w
        → group_at s w ≡ some docs
        → IsMap docs
    unfolding IsGroups group_at
    group_at-IsMap [] s docs g h = cc
    group_at-IsMap ((t, m) ∷ w) s docs g h = elim (Bool-cases (same_id t s)) [
      | inl here ↦ subst IsMap (ground arith) g.0
      | inr there ↦ group_at-IsMap w s docs g.2 (ground arith)
    ]

    write_to_shard-missing :
        (w : MergeDocs Data) (s : ℤ) (xs ys : List Index)
        → group_at s w ≡ none
        → write_to_shard ε range w s xs ≡ (ok tt, ys)
        → xs ≡ ys
    unfolding write_to_shard
    write_to_shard-missing w s xs ys e h = ground arith

    pub doc_in-group :
        (w : MergeDocs Data) (s : ℤ) (docs : Dict (WalDocument Data)) (k : String)
        → group_at s w ≡ some docs
        → doc_in s k w ≡ Dict.get docs k
    unfolding doc_in group_or_new
    doc_in-group w s docs k e = ground arith

    -- A group without the document leaves it as it is.
    pub step-Kept :
        (k : String) (w : MergeDocs Data) (s : ℤ) (xs ys : List Index)
        → IsGroups w
        → doc_in s k w ≡ none
        → write_to_shard ε range w s xs ≡ (ok tt, ys)
        → Kept k xs ys
    step-Kept k w s xs ys g out h = elim (Option-cases (group_at s w)) [
      | inl missing ↦
          subst (Kept k xs) (write_to_shard-missing w s xs ys missing h) (refl, λ j l. refl)
      | inr (docs, there) ↦
          let (ops, made, wrote) = write_to_shard-Wrote w s docs xs ys there h in
          Wrote-Kept k (home s (length xs)) (everywhere s) ops xs ys wrote (
            collect-untouched ε k (range.docs docs) ops
              (ranges.docs_IsMap docs (group_at-IsMap w s docs g there)) made
              (ranges.docs_get docs k ∙ sym (doc_in-group w s docs k there) ∙ out))
    ]

    -- The document's own group settles it.
    pub step-Placed :
        (k : String) (w : MergeDocs Data) (s : ℤ) (d : WalDocument Data) (first : Action)
        (rest : List Action) (xs ys : List Index)
        → IsGroups w
        → doc_in s k w ≡ some d
        → d.actions ≡ first ∷ rest
        → write_to_shard ε range w s xs ≡ (ok tt, ys)
        → Known (last_of first rest)
        → (first ≡ insert → (j : ℕ) → docs_at ε k j xs ≡ [])
        → (everywhere s ≡ false → (j : ℕ) → j ≢ home s (length xs) → docs_at ε k j xs ≡ [])
        → (c : Content) × (build k d.fields ≡ ok c)
          × (length ys ≡ length xs)
          × Placed k (home s (length xs)) (settled (last_of first rest) c) ys
    step-Placed k w s d first rest xs ys g mine acts h known fresh alone =
        elim (Option-cases (group_at s w)) [
          | inl missing ↦ absurd (no_group missing mine)
          | inr (docs, there) ↦
              let (ops, made, wrote) = write_to_shard-Wrote w s docs xs ys there h in
              let (c, o, built, did, same) =
                collect-touched ε k (range.docs docs) ops d
                  (ranges.docs_IsMap docs (group_at-IsMap w s docs g there)) made
                  (ranges.docs_get docs k ∙ sym (doc_in-group w s docs k there) ∙ mine) in
              (
                c,
                built,
                wrote.same_length,
                Wrote-Placed k (home s (length xs)) (everywhere s) ops o c first rest xs ys wrote
                    same (subst (λ a. doc_ops k c a ≡ ok o) acts did) known fresh alone,
              )
        ]
      where
        no_group : group_at s w ≡ none → ¬ (doc_in s k w ≡ some d)
        no_group e f = cc (sym f ∙ no_group-doc_in s k w e)

    -- A document whose first entry inserts it is added to those that are there.
    pub step-Added :
        (k : String) (w : MergeDocs Data) (s : ℤ) (d : WalDocument Data) (rest : List Action)
        (xs ys : List Index)
        → IsGroups w
        → doc_in s k w ≡ some d
        → d.actions ≡ insert ∷ rest
        → write_to_shard ε range w s xs ≡ (ok tt, ys)
        → Known (last_of insert rest)
        → (c : Content) × (build k d.fields ≡ ok c)
          × (length ys ≡ length xs)
          × (docs_at ε k (home s (length xs)) ys
              ≡ docs_at ε k (home s (length xs)) xs ++ settled (last_of insert rest) c)
    step-Added k w s d rest xs ys g mine acts h known =
        let (docs, there) = group_of s k w d mine in
        let (ops, made, wrote) = write_to_shard-Wrote w s docs xs ys there h in
        let (c, o, built, did, same) =
          collect-touched ε k (range.docs docs) ops d
            (ranges.docs_IsMap docs (group_at-IsMap w s docs g there)) made
            (ranges.docs_get docs k ∙ sym (doc_in-group w s docs k there) ∙ mine) in
        (
          c,
          built,
          wrote.same_length,
          wrote.at_home k
              ∙ after_batch-Same k ops.0 o.0 (docs_at ε k (home s (length xs)) xs) same.0
              ∙ doc_ops-added k c rest o (docs_at ε k (home s (length xs)) xs)
                  (subst (λ a. doc_ops k c a ≡ ok o) acts did) known,
        )
