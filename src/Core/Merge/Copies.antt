-- ===== src/Core/Merge/Copies.antt =====
-- A document that a batch inserts is added to those of its id.
use zincsearch.Prelude.{
  ℕ, ◌≡◌, List, [], ◌∷◌, String, none, ok, ◌≢◌, length, ◌++◌, map, ap, sym, ◌∙◌, subst,
}
use zincsearch.Core.Engine.{Engine, Laws, insert, LogEntry}
use zincsearch.Core.Merge.{MergeDocs, RangeOrder, write_to, ℤ, last_of}
use zincsearch.Core.Merge.Gathered.{IsGroups, doc_in, add_all, entries_of, IsGroups-add_all}
use zincsearch.Core.Merge.Batches.{Known, settled}
use zincsearch.Core.Merge.Writing.{docs_at}
use zincsearch.Core.Merge.Settled.{IsRange, home, step-Added}
use zincsearch.Core.Merge.LastAction.{last_entry, own_group, Kept-docs_at, last_of-entries}

module _ (ε : Engine) (law : Laws ε) (range : RangeOrder ε.Data) (ranges : IsRange range) where
  open ε use {Index, Content, Data, build}

  pub inserts_add :
      (es : List (LogEntry Data)) (w : MergeDocs Data) (k : String) (t : ℤ) (e : LogEntry Data)
      (rest : List (LogEntry Data)) (xs ys : List Index)
      → IsGroups w
      → ((u : ℤ) → doc_in u k w ≡ none)
      → write_to ε range (add_all es w) xs ≡ (ok tt, ys)
      → entries_of t k es ≡ e ∷ rest
      → ((u : ℤ) → u ≢ t → entries_of u k es ≡ [])
      → e.action ≡ insert
      → Known (last_entry e rest).action
      → (c : Content) × (build k (last_entry e rest).fields ≡ ok c)
        × (length ys ≡ length xs)
        × (docs_at ε k (home t (length xs)) ys
            ≡ docs_at ε k (home t (length xs)) xs ++ settled (last_entry e rest).action c)
  inserts_add es w k t e rest xs ys g empty h mine only first known =
      let (d, gathered, acts, last, before, after, first_kept, wrote, then_kept) =
        own_group ε law range ranges es w k t e rest xs ys g empty h mine only in
      let last_is : last_of insert (map (λ f. f.action) rest) ≡ (last_entry e rest).action =
        ap (λ a. last_of a (map (λ f. f.action) rest)) (sym first) ∙ last_of-entries e rest in
      let (c, built, len, added) =
        step-Added ε law range ranges k (add_all es w) t d (map (λ f. f.action) rest) before after
          (IsGroups-add_all es w g) gathered (rw (← first) acts) wrote
          (subst Known (sym last_is) known) in
      let at_home : ℕ → Type 0 = λ n.
        docs_at ε k (home t n) after
        ≡ docs_at ε k (home t n) before ++ settled (last_entry e rest).action c in
      (
        c,
        subst (λ f. build k f ≡ ok c) last built,
        then_kept.0 ∙ len ∙ first_kept.0,
        Kept-docs_at ε law k after ys then_kept (home t (length xs))
            ∙ subst at_home first_kept.0 (
                subst
                  (λ a.
                    docs_at ε k (home t (length before)) after
                    ≡ docs_at ε k (home t (length before)) before ++ settled a c)
                  last_is added)
            ∙ ap (λ l. l ++ settled (last_entry e rest).action c)
                (Kept-docs_at ε law k xs before first_kept (home t (length xs))),
      )
