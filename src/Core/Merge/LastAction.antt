-- ===== src/Core/Merge/LastAction.antt =====
-- `WriteTo` over all groups: the last action of a document decides.
use zincsearch.Prelude.{
  ℕ, ◌≤◌, ◌≡◌, ◌≢◌, List, [], ◌∷◌, false, none, some, ok, String, length, arith, refl, Bool-cases,
  subst, suc, ◌∙◌, ap, ltb, zero, inl, ltb→lt, inr, sym, Result-cases, map, ◌++◌, append-nil,
  append_assoc, if◌then◌else◌, ◌==◌,
}
use zincsearch.Prelude.Int.{ℤ}
use zincsearch.Dict.{Dict}
use zincsearch.Core.Engine.{Engine, Laws, insert, LogEntry}
use zincsearch.Core.Merge.{
  MergeDocs, WalDocument, RangeOrder, write_to_shard, write_groups, same_id, group_at, last_of,
  write_to, actions_of,
}
use zincsearch.Core.Merge.Gathered.{
  IsGroups, doc_in, same_id_iff, with_entries, add_all, with_entry, entries_of, doc_in-add_all,
  IsGroups-add_all, group_of,
}
use zincsearch.Core.Merge.Batches.{Known, settled}
use zincsearch.Core.Merge.Writing.{docs_at}
use zincsearch.Core.Merge.Settled.{IsRange, home, everywhere, Kept, Placed, step-Kept, step-Placed}

module _ (ε : Engine) (law : Laws ε) where
  open ε use {Index, Content, Data, build}

  docs_at-beyond : (k : String) (j : ℕ) (xs : List Index) → length xs ≤ j → docs_at ε k j xs ≡ []
  unfolding docs_at
  docs_at-beyond k j [] l = refl
  docs_at-beyond k zero (x ∷ xs) l = absurd (omega arith)
  docs_at-beyond k (suc j) (x ∷ xs) l = docs_at-beyond k j xs (omega arith)

  pub Kept-docs_at :
      (k : String) (xs ys : List Index)
      → Kept ε law k xs ys
      → (j : ℕ) → docs_at ε k j ys ≡ docs_at ε k j xs
  Kept-docs_at k xs ys kept j = elim (Bool-cases (ltb j (length xs))) [
    | inl inside ↦ kept.1 j (ltb→lt j (length xs) inside)
    | inr outside ↦
        docs_at-beyond k j ys (ground (arith, kept.0)) ∙ sym (docs_at-beyond k j xs (ground arith))
  ]

  Kept-trans :
      (k : String) (xs ys zs : List Index)
      → Kept ε law k xs ys
      → Kept ε law k ys zs
      → Kept ε law k xs zs
  Kept-trans k xs ys zs f g = (g.0 ∙ f.0, λ j l. g.1 j (rw f.0 l) ∙ f.1 j l)

  module _ (range : RangeOrder Data) (ranges : IsRange range) (w : MergeDocs Data)
      (g : IsGroups w) where
    groups-cons :
        (s : ℤ) (docs : Dict (WalDocument Data)) (rest : MergeDocs Data) (xs zs : List Index)
        → write_groups ε range w ((s, docs) ∷ rest) xs ≡ (ok tt, zs)
        → (ys : List Index) × (write_to_shard ε range w s xs ≡ (ok tt, ys))
          × (write_groups ε range w rest ys ≡ (ok tt, zs))
    unfolding write_groups
    groups-cons s docs rest xs zs h = elim (Result-cases (write_to_shard ε range w s xs).0) [
      | inl (u, e) ↦ (
        (write_to_shard ε range w s xs).1,
        ap (λ r. (r, (write_to_shard ε range w s xs).1)) e,
        ground arith,
      )
      | inr (f, e) ↦ absurd (ground arith)
    ]

    module _ (k : String) (t : ℤ) (only : (u : ℤ) → u ≢ t → doc_in u k w ≡ none) where
      groups-Kept :
          (gs : MergeDocs Data) (xs ys : List Index)
          → group_at t gs ≡ none
          → write_groups ε range w gs xs ≡ (ok tt, ys)
          → Kept ε law k xs ys
      unfolding group_at write_groups
      groups-Kept [] xs ys out h = subst (Kept ε law k xs) (ap (λ p. p.1) h) (refl, λ j l. refl)
      groups-Kept ((s, docs) ∷ gs) xs zs out h =
          let (ys, one, more) = groups-cons s docs gs xs zs h in
          let s_not_t : s ≢ t = ground (arith, same_id_iff s t) in
          Kept-trans k xs ys zs (step-Kept ε law range ranges k w s xs ys g (only s s_not_t) one)
            (groups-Kept gs ys zs (ground arith) more)

      -- The loop comes to the group once, and leaves the document alone before and after.
      groups-split :
          (gs : MergeDocs Data) (docs : Dict (WalDocument Data)) (xs zs : List Index)
          → IsGroups gs
          → group_at t gs ≡ some docs
          → write_groups ε range w gs xs ≡ (ok tt, zs)
          → (before after : List Index) × Kept ε law k xs before
            × (write_to_shard ε range w t before ≡ (ok tt, after))
            × Kept ε law k after zs
      unfolding group_at IsGroups
      groups-split [] docs xs zs gg there h = cc
      groups-split ((s, m) ∷ gs) docs xs zs gg there h =
          let (ys, one, more) = groups-cons s m gs xs zs h in
          elim (Bool-cases (same_id s t)) [
            | inl here ↦
                let s_is_t : s ≡ t = (same_id_iff s t).0 here in
                (
                  xs,
                  ys,
                  (refl, λ j l. refl),
                  subst (λ u. write_to_shard ε range w u xs ≡ (ok tt, ys)) s_is_t one,
                  groups-Kept gs ys zs (subst (λ u. group_at u gs ≡ none) s_is_t gg.1) more,
                )
            | inr other_group ↦
                let s_not_t : s ≢ t = ground (arith, same_id_iff s t) in
                let (before, after, kept, wrote, rest) =
                  groups-split gs docs ys zs gg.2 (ground arith) more in
                (
                  before,
                  after,
                  Kept-trans k xs ys before
                      (step-Kept ε law range ranges k w s xs ys g (only s s_not_t) one) kept,
                  wrote,
                  rest,
                )
          ]

-- the last of the entries that start with `e`
unfoldable pub last_entry : {D : Type 0} → LogEntry D → List (LogEntry D) → LogEntry D
last_entry e [] = e
last_entry e (f ∷ rest) = last_entry f rest

module _ {D : Type 0} where
  pub last_of-entries :
      (e : LogEntry D) (es : List (LogEntry D))
      → last_of e.action (map (λ f. f.action) es) ≡ (last_entry e es).action
  unfolding last_of last_entry
  last_of-entries e [] = refl
  last_of-entries e (f ∷ es) = last_of-entries f es

  -- The document that a run of entries leaves.
  with_entries-some :
      (e : LogEntry D) (es : List (LogEntry D)) (d : WalDocument D)
      → d.fields ≡ e.fields
      → (x : WalDocument D) × (with_entries es (some d) ≡ some x)
        × (x.actions ≡ d.actions ++ map (λ f. f.action) es)
        × (x.fields ≡ (last_entry e es).fields)
  unfolding with_entries with_entry last_entry actions_of
  with_entries-some e [] d h = (d, refl, sym (append-nil d.actions), h)
  with_entries-some e (f ∷ es) d h =
      let (x, merged, acts, last) = with_entries-some f es (with_entry f (some d)) refl in
      (x, merged, acts ∙ append_assoc d.actions (f.action ∷ []) (map (λ f. f.action) es), last)

  pub with_entries-first :
      (e : LogEntry D) (es : List (LogEntry D))
      → (x : WalDocument D) × (with_entries (e ∷ es) none ≡ some x)
        × (x.actions ≡ e.action ∷ map (λ f. f.action) es)
        × (x.fields ≡ (last_entry e es).fields)
  unfolding with_entries with_entry actions_of
  with_entries-first e es = with_entries-some e es (with_entry e none) refl

module _ (ε : Engine) (law : Laws ε) (range : RangeOrder ε.Data) (ranges : IsRange range) where
  open ε use {Index, Content, Data, build}

  -- The document of a batch's entries, and the call that writes its group.
  pub own_group :
      (es : List (LogEntry Data)) (w : MergeDocs Data) (k : String) (t : ℤ) (e : LogEntry Data)
      (rest : List (LogEntry Data)) (xs ys : List Index)
      → IsGroups w
      → ((u : ℤ) → doc_in u k w ≡ none)
      → write_to ε range (add_all es w) xs ≡ (ok tt, ys)
      → entries_of t k es ≡ e ∷ rest
      → ((u : ℤ) → u ≢ t → entries_of u k es ≡ [])
      → (d : WalDocument Data) × (doc_in t k (add_all es w) ≡ some d)
        × (d.actions ≡ e.action ∷ map (λ f. f.action) rest)
        × (d.fields ≡ (last_entry e rest).fields)
        × (before after : List Index) × Kept ε law k xs before
        × (write_to_shard ε range (add_all es w) t before ≡ (ok tt, after))
        × Kept ε law k after ys
  unfolding write_to with_entries
  own_group es w k t e rest xs ys g empty h mine only =
      let (d, merged, acts, last) = with_entries-first e rest in
      let gathered : doc_in t k (add_all es w) ≡ some d =
        doc_in-add_all t k es w ∙ rw (mine, empty t) merged in
      let all = add_all es w in
      let elsewhere : (u : ℤ) → u ≢ t → doc_in u k all ≡ none =
        λ u n. doc_in-add_all u k es w ∙ rw (only u n) (empty u) in
      let (docs, there) = group_of t k all d gathered in
      let (before, after, first_kept, wrote, then_kept) =
        groups-split ε law range ranges all (IsGroups-add_all es w g) k t elsewhere
          (range.groups all) docs xs ys (ranges.groups_IsGroups all (IsGroups-add_all es w g))
          (ranges.groups_at all t ∙ there) h in
      (d, gathered, acts, last, before, after, first_kept, wrote, then_kept)

  -- The entries of a batch are merged and written, and all those of a document are for one shard,
  -- or for all. If a document whose first entry inserts it was not there before, and one whose
  -- entries are for a single shard was in no other, then its last entry decides: after a deletion
  -- it is in no shard, and otherwise exactly one document, built from the last entry's fields, is
  -- in the shard of the entries, or in the latest shard, and none in any other. The number of
  -- shards stays.
  pub last_action_decides :
      (es : List (LogEntry Data)) (w : MergeDocs Data) (k : String) (t : ℤ) (e : LogEntry Data)
      (rest : List (LogEntry Data)) (xs ys : List Index)
      → IsGroups w
      → ((u : ℤ) → doc_in u k w ≡ none)
      → write_to ε range (add_all es w) xs ≡ (ok tt, ys)
      → entries_of t k es ≡ e ∷ rest
      → ((u : ℤ) → u ≢ t → entries_of u k es ≡ [])
      → Known (last_entry e rest).action
      → (e.action ≡ insert → (j : ℕ) → docs_at ε k j xs ≡ [])
      → (everywhere t ≡ false → (j : ℕ) → j ≢ home t (length xs) → docs_at ε k j xs ≡ [])
      → (c : Content) × (build k (last_entry e rest).fields ≡ ok c)
        × (length ys ≡ length xs)
        × Placed ε law k (home t (length xs)) (settled (last_entry e rest).action c) ys
  last_action_decides es w k t e rest xs ys g empty h mine only known fresh alone =
      let (d, gathered, acts, last, before, after, first_kept, wrote, then_kept) =
        own_group es w k t e rest xs ys g empty h mine only in
      let same = Kept-docs_at ε law k xs before first_kept in
      let (c, built, len, placed) =
        step-Placed ε law range ranges k (add_all es w) t d e.action (map (λ f. f.action) rest)
          before after (IsGroups-add_all es w g) gathered acts wrote
          (subst Known (sym (last_of-entries e rest)) known) (λ i j. same j ∙ fresh i j)
          (λ o j n. same j ∙ alone o j (subst (λ l. j ≢ home t l) first_kept.0 n)) in
      (
        c,
        subst (λ f. build k f ≡ ok c) last built,
        then_kept.0 ∙ len ∙ first_kept.0,
        λ j l.
            Kept-docs_at ε law k after ys then_kept j
            ∙ subst
                (λ n.
                  docs_at ε k j after
                  ≡ (if j == home t n then settled (last_entry e rest).action c else []))
                first_kept.0
                (subst
                  (λ a.
                    docs_at ε k j after ≡ (if j == home t (length before) then settled a c else []))
                  (last_of-entries e rest) (placed j (rw (← then_kept.0) l))),
      )
