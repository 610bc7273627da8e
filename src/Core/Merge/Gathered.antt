-- ===== src/Core/Merge/Gathered.antt =====
-- What `AddDocument` gathers: for each shard and each document, the actions of its entries in their
-- order, and the fields of the last one. The groups are Go maps: no key is there twice.
use zincsearch.Prelude.{
  String, [], ◌∷◌, ◌++◌, true, ◌&&◌, Option, some, if◌then◌else◌, arith, ◌≡◌, refl, str_eq, eq_iff,
  ◌↔◌, Bool-cases, List, none, inl, inr, subst, Option-cases, sym, ◌∙◌,
}
use zincsearch.Prelude.Int.{ℤ, pos, negsuc}
use zincsearch.Dict.{Dict, dict_laws, get-put}
use zincsearch.Dict
use zincsearch.Core.Engine.{LogEntry}
use zincsearch.Core.Merge.{
  WalDocument, MergeDocs, same_id, group_at, put_group, group_or_new, actions_of, add_document,
  reset,
}

same_id→eq : (s t : ℤ) → same_id s t ≡ true → s ≡ t
unfolding same_id
same_id→eq (pos m) (pos n) h = ground arith
same_id→eq (pos m) (negsuc n) h = ground arith
same_id→eq (negsuc m) (pos n) h = ground arith
same_id→eq (negsuc m) (negsuc n) h = ground arith

same_id_refl : (s : ℤ) → same_id s s ≡ true
unfolding same_id
same_id_refl (pos m) = ground arith
same_id_refl (negsuc m) = ground arith

pub same_id_iff : (s t : ℤ) → (same_id s t ≡ true) ↔ (s ≡ t)
same_id_iff s t = (same_id→eq s t, λ e. rw e (same_id_refl t))

module _ {D : Type 0} where
  -- the document of an id that a group holds
  unfoldable pub doc_in : ℤ → String → MergeDocs D → Option (WalDocument D)
  unfolding group_or_new
  doc_in s k w = Dict.get (group_or_new s w) k

  pub group_at-put :
      (s t : ℤ) (docs : Dict (WalDocument D)) (w : MergeDocs D)
      → group_at t (put_group s docs w) ≡ (if same_id s t then some docs else group_at t w)
  unfolding group_at put_group
  group_at-put s t docs [] = refl
  group_at-put s t docs ((u, old) ∷ w) =
      ground (arith, same_id_iff u s, same_id_iff u t, same_id_iff s t, group_at-put s t docs w)

  -- the document after one entry more
  unfoldable pub with_entry : LogEntry D → Option (WalDocument D) → WalDocument D
  unfolding actions_of
  with_entry e o = record {
    doc_id = e.doc_id;
    actions = actions_of o ++ e.action ∷ [];
    fields = e.fields;
  }

  pub doc_in-add :
      (s : ℤ) (k : String) (e : LogEntry D) (w : MergeDocs D)
      → doc_in s k (add_document e w) ≡ (
          if same_id e.shard s && str_eq e.doc_id k
          then some (with_entry e (doc_in s k w))
          else doc_in s k w)
  unfolding doc_in add_document with_entry group_or_new
  doc_in-add s k e w =
      ground (arith, same_id_iff e.shard s, eq_iff e.doc_id k, group_at-put e.shard s docs w, found)
    where
      doc : WalDocument D
      doc = with_entry e (doc_in e.shard e.doc_id w)

      docs : Dict (WalDocument D)
      docs = Dict.put (group_or_new e.shard w) e.doc_id doc

      found :
          Dict.get docs k
          ≡ (if str_eq e.doc_id k then some doc else Dict.get (group_or_new e.shard w) k)
      found = get-put (group_or_new e.shard w) e.doc_id doc k

  unfoldable pub add_all : List (LogEntry D) → MergeDocs D → MergeDocs D
  add_all [] w = w
  add_all (e ∷ es) w = add_all es (add_document e w)

  -- the entries of one document in one shard
  unfoldable pub entries_of : ℤ → String → List (LogEntry D) → List (LogEntry D)
  entries_of s k [] = []
  entries_of s k (e ∷ es) =
      if same_id e.shard s && str_eq e.doc_id k then e ∷ entries_of s k es else entries_of s k es

  unfoldable pub with_entries : List (LogEntry D) → Option (WalDocument D) → Option (WalDocument D)
  with_entries [] o = o
  with_entries (e ∷ es) o = with_entries es (some (with_entry e o))

  pub doc_in-add_all :
      (s : ℤ) (k : String) (es : List (LogEntry D)) (w : MergeDocs D)
      → doc_in s k (add_all es w) ≡ with_entries (entries_of s k es) (doc_in s k w)
  unfolding add_all entries_of with_entries
  doc_in-add_all s k [] w = refl
  doc_in-add_all s k (e ∷ es) w = elim (Bool-cases (same_id e.shard s && str_eq e.doc_id k)) [
    | inl mine ↦ rw (doc_in-add_all s k es (add_document e w), doc_in-add s k e w, mine) refl
    | inr theirs ↦ rw (doc_in-add_all s k es (add_document e w), doc_in-add s k e w, theirs) refl
  ]

  -- A group of documents is a map: no id is there twice, and each document has its own.
  unfoldable pub IsMap : Dict (WalDocument D) → Type 0
  IsMap [] = Unit
  IsMap ((k, d) ∷ m) = (d.doc_id ≡ k) × (Dict.get m k ≡ none) × IsMap m

  -- So are the groups.
  unfoldable pub IsGroups : MergeDocs D → Type 0
  IsGroups [] = Unit
  IsGroups ((s, m) ∷ w) = IsMap m × (group_at s w ≡ none) × IsGroups w

  pub IsMap-put :
      (k : String) (d : WalDocument D) (m : Dict (WalDocument D))
      → d.doc_id ≡ k
      → IsMap m
      → IsMap (Dict.put m k d)
  unfolding IsMap Dict.put Dict.get
  IsMap-put k d [] e h = (e, refl, tt)
  IsMap-put k d ((j, c) ∷ m) e h = elim (Bool-cases (str_eq j k)) [
    | inl same ↦ rw same (e, subst (λ i. Dict.get m i ≡ none) ((eq_iff j k).0 same) h.1, h.2)
    | inr differs ↦
        rw differs
          (h.0, ground (arith, get-put m k d j, eq_iff j k, eq_iff k j), IsMap-put k d m e h.2)
  ]

  group_at-IsMap : (s : ℤ) (w : MergeDocs D) → IsGroups w → IsMap (group_or_new s w)
  unfolding IsGroups group_or_new group_at IsMap
  group_at-IsMap s [] h = tt
  group_at-IsMap s ((t, m) ∷ w) h = elim (Bool-cases (same_id t s)) [
    | inl same ↦ rw (same, IsMap, group_or_new, group_at) h.0
    | inr differs ↦ rw (differs, IsMap, group_or_new, group_at) (group_at-IsMap s w h.2)
  ]

  IsGroups-put :
      (s : ℤ) (m : Dict (WalDocument D)) (w : MergeDocs D)
      → IsMap m
      → IsGroups w
      → IsGroups (put_group s m w)
  unfolding IsGroups put_group group_at
  IsGroups-put s m [] f h = (f, refl, tt)
  IsGroups-put s m ((t, n) ∷ w) f h = elim (Bool-cases (same_id t s)) [
    | inl same ↦ rw same (f, subst (λ i. group_at i w ≡ none) ((same_id_iff t s).0 same) h.1, h.2)
    | inr differs ↦ rw differs (
      h.0,
      ground (arith, group_at-put s t m w, same_id_iff t s, same_id_iff s t),
      IsGroups-put s m w f h.2,
    )
  ]

  pub IsGroups-add_all :
      (es : List (LogEntry D)) (w : MergeDocs D) → IsGroups w → IsGroups (add_all es w)
  unfolding add_all add_document
  IsGroups-add_all [] w h = h
  IsGroups-add_all (e ∷ es) w h =
      IsGroups-add_all es (add_document e w)
        (IsGroups-put e.shard _ w (IsMap-put e.doc_id _ _ refl (group_at-IsMap e.shard w h)) h)

  -- After `Reset` the groups are there and hold nothing.
  pub doc_in-reset : (s : ℤ) (k : String) (w : MergeDocs D) → doc_in s k (reset w) ≡ none
  unfolding doc_in group_or_new group_at reset Dict.get
  doc_in-reset s k [] = refl
  doc_in-reset s k ((t, m) ∷ w) = elim (Bool-cases (same_id t s)) [
    | inl same ↦ rw (same, doc_in, group_or_new, group_at) refl
    | inr differs ↦ rw (differs, doc_in, group_or_new, group_at) (doc_in-reset s k w)
  ]

  group_at-reset : (s : ℤ) (w : MergeDocs D) → group_at s w ≡ none → group_at s (reset w) ≡ none
  unfolding group_at reset
  group_at-reset s [] h = refl
  group_at-reset s ((t, m) ∷ w) h = ground (arith, group_at-reset s w)

  pub IsGroups-reset : (w : MergeDocs D) → IsGroups w → IsGroups (reset w)
  unfolding IsGroups reset IsMap
  IsGroups-reset [] h = tt
  IsGroups-reset ((t, m) ∷ w) h = (tt, group_at-reset t w h.1, IsGroups-reset w h.2)

  pub no_group-doc_in :
      (t : ℤ) (k : String) (w : MergeDocs D) → group_at t w ≡ none → doc_in t k w ≡ none
  unfolding doc_in group_or_new Dict.get
  no_group-doc_in t k w e = ground arith

  -- A document that is gathered is in a group.
  pub group_of :
      (t : ℤ) (k : String) (w : MergeDocs D) (d : WalDocument D)
      → doc_in t k w ≡ some d
      → (docs : Dict (WalDocument D)) × (group_at t w ≡ some docs)
  unfolding doc_in group_or_new
  group_of t k w d h = elim (Option-cases (group_at t w)) [
    | inl missing ↦ absurd (cc (sym h ∙ no_group-doc_in t k w missing))
    | inr (docs, there) ↦ (docs, there)
  ]
