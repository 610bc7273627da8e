-- ===== src/Core/Merge/Batches.antt =====
-- What the batches that `WriteToShard` fills do to one document: an id that has no entries is left
-- alone, and one that has is handled by its own document only.
use zincsearch.Prelude.{
  ◌≡◌, String, List, str_eq, [], false, ok, arith, subst, if◌then◌else◌, ok_injective, ◌++◌, ◌∷◌,
  bind-ok, append-nil, none, refl, sym, ◌||◌, some, ◌∙◌, Bool-cases, inl, eq_iff, inr, eq_refl,
}
use zincsearch.Dict.{Dict}
use zincsearch.Dict
use zincsearch.Core.Engine.{
  Engine, Op, drops, adds, Action, insert, update, delete, other, add, replace, drop_id,
}
use zincsearch.Core.Merge.{WalDocument, doc_ops, collect, insert_ops, change_ops, last_of}
use zincsearch.Core.Merge.Gathered.{IsMap}

module _ {C : Type 0} where
  -- the documents of an id after a batch
  unfoldable pub after_batch : String → List (Op C) → List C → List C
  after_batch k ops before = (if drops k ops then [] else before) ++ adds k ops

  -- Two batches do the same to an id.
  abbrev pub Same : String → List (Op C) → List (Op C) → Type 0
  Same k a b = (drops k a ≡ drops k b) × (adds k a ≡ adds k b)

  -- So do two pairs of batches.
  abbrev pub SameBoth : String → List (Op C) × List (Op C) → List (Op C) × List (Op C) → Type 0
  SameBoth k a b = Same k a.0 b.0 × Same k a.1 b.1

  drops-append : (k : String) (a b : List (Op C)) → drops k (a ++ b) ≡ (drops k a || drops k b)
  unfolding drops
  drops-append k [] b = refl
  drops-append k (add j c ∷ a) b = drops-append k a b
  drops-append k (replace j c ∷ a) b = ground (arith, drops-append k a b)
  drops-append k (drop_id j ∷ a) b = ground (arith, drops-append k a b)

  adds-append : (k : String) (a b : List (Op C)) → adds k (a ++ b) ≡ adds k a ++ adds k b
  unfolding adds
  adds-append k [] b = refl
  adds-append k (add j c ∷ a) b = ground (arith, adds-append k a b)
  adds-append k (replace j c ∷ a) b = ground (arith, adds-append k a b)
  adds-append k (drop_id j ∷ a) b = adds-append k a b

  -- The first part does nothing to the id.
  Same-append-left : (k : String) (a b : List (Op C)) → Same k a [] → Same k (a ++ b) b
  unfolding drops adds
  Same-append-left k a b h = ground (arith, drops-append k a b, adds-append k a b)

  Same-append-right : (k : String) (a b : List (Op C)) → Same k b [] → Same k (a ++ b) a
  unfolding drops adds
  Same-append-right k a b h =
      ground (arith, drops-append k a b, adds-append k a b, append-nil (adds k a))

  insert_ops-other :
      (j k : String) (c : C) (a : Action) → str_eq j k ≡ false → Same k (insert_ops j c a) []
  unfolding insert_ops drops adds
  insert_ops-other j k c insert h = ground arith
  insert_ops-other j k c update h = ground arith
  insert_ops-other j k c delete h = ground arith
  insert_ops-other j k c (other s) h = ground arith

  change_ops-other :
      (j k : String) (c : C) (a : Action)
      → str_eq j k ≡ false
      → SameBoth k (change_ops j c a) ([], [])
  unfolding change_ops drops adds
  change_ops-other j k c insert h = ground arith
  change_ops-other j k c update h = ground arith
  change_ops-other j k c delete h = ground arith
  change_ops-other j k c (other s) h = ground arith

  doc_ops-other :
      (j k : String) (c : C) (as' : List Action) (o : List (Op C) × List (Op C))
      → doc_ops j c as' ≡ ok o
      → str_eq j k ≡ false
      → SameBoth k o ([], [])
  unfolding doc_ops
  doc_ops-other j k c [] o h d = cc
  doc_ops-other j k c (insert ∷ as') o h d =
      subst (λ o. SameBoth k o ([], [])) (ok_injective h) (insert_ops-other j k c _ d, (refl, refl))
  doc_ops-other j k c (update ∷ as') o h d =
      subst (λ o. SameBoth k o ([], [])) (ok_injective h) (change_ops-other j k c _ d)
  doc_ops-other j k c (delete ∷ as') o h d =
      subst (λ o. SameBoth k o ([], [])) (ok_injective h) (change_ops-other j k c _ d)
  doc_ops-other j k c (other s ∷ as') o h d = cc

  SameBoth-append-left :
      (k : String) (a b : List (Op C) × List (Op C))
      → SameBoth k a ([], [])
      → SameBoth k (a.0 ++ b.0, a.1 ++ b.1) b
  SameBoth-append-left k a b h = (Same-append-left k a.0 b.0 h.0, Same-append-left k a.1 b.1 h.1)

  SameBoth-append-right :
      (k : String) (a b : List (Op C) × List (Op C))
      → SameBoth k b ([], [])
      → SameBoth k (a.0 ++ b.0, a.1 ++ b.1) a
  SameBoth-append-right k a b h = (Same-append-right k a.0 b.0 h.0, Same-append-right k a.1 b.1 h.1)

  SameBoth-trans :
      (k : String) (a b c : List (Op C) × List (Op C))
      → SameBoth k a b
      → SameBoth k b c
      → SameBoth k a c
  SameBoth-trans k a b c h g = ((h.0.0 ∙ g.0.0, h.0.1 ∙ g.0.1), (h.1.0 ∙ g.1.0, h.1.1 ∙ g.1.1))

module _ (ε : Engine) where
  open ε use {Content, Data, build}

  -- One step of `collect`, taken apart.
  collect-cons :
      (i : String) (d : WalDocument Data) (docs : Dict (WalDocument Data))
      (ops : List (Op Content) × List (Op Content))
      → collect ε ((i, d) ∷ docs) ≡ ok ops
      → (c : Content) × (o rest : List (Op Content) × List (Op Content)) × (build d.doc_id d.fields
          ≡ ok c)
        × (doc_ops d.doc_id c d.actions ≡ ok o)
        × (collect ε docs ≡ ok rest)
        × (ops ≡ (o.0 ++ rest.0, o.1 ++ rest.1))
  unfolding collect
  collect-cons i d docs ops h =
      let (c, built, h1) = bind-ok (build d.doc_id d.fields) _ h in
      let (o, made, h2) = bind-ok (doc_ops d.doc_id c d.actions) _ h1 in
      let (rest, collected, h3) = bind-ok (collect ε docs) _ h2 in
      (c, o, rest, built, made, collected, sym (ok_injective h3))

  -- An id with no entries is left alone.
  pub collect-untouched :
      (k : String) (docs : Dict (WalDocument Data)) (ops : List (Op Content) × List (Op Content))
      → IsMap docs
      → collect ε docs ≡ ok ops
      → Dict.get docs k ≡ none
      → SameBoth k ops ([], [])
  unfolding IsMap Dict.get collect
  collect-untouched k [] ops m h g =
      subst (λ o. SameBoth k o ([], [])) (ok_injective h) ((refl, refl), (refl, refl))
  collect-untouched k ((i, d) ∷ docs) ops m h g =
      let (c, o, rest, built, made, collected, e) = collect-cons i d docs ops h in
      let other_id : str_eq d.doc_id k ≡ false = ground (arith, m.0) in
      rw e (
        SameBoth-trans k (o.0 ++ rest.0, o.1 ++ rest.1) rest ([], [])
          (SameBoth-append-left k o rest (doc_ops-other d.doc_id k c d.actions o made other_id))
          (collect-untouched k docs rest m.2 collected (ground arith)))

  -- An id with entries is handled by its document.
  pub collect-touched :
      (k : String) (docs : Dict (WalDocument Data)) (ops : List (Op Content) × List (Op Content))
      (x : WalDocument Data)
      → IsMap docs
      → collect ε docs ≡ ok ops
      → Dict.get docs k ≡ some x
      → (c : Content) × (o : List (Op Content) × List (Op Content)) × (build k x.fields ≡ ok c)
        × (doc_ops k c x.actions ≡ ok o)
        × SameBoth k ops o
  unfolding IsMap Dict.get
  collect-touched k [] ops x m h g = cc
  collect-touched k ((i, d) ∷ docs) ops x m h g =
      let (c, o, rest, built, made, collected, e) = collect-cons i d docs ops h in
      elim (Bool-cases (str_eq i k)) [
        | inl same ↦
            let i_is_k : i ≡ k = (eq_iff i k).0 same in
            let d_is_x : d ≡ x = ground arith in
            let id_is_k : d.doc_id ≡ k = m.0 ∙ i_is_k in
            (
              c,
              o,
              cc,
              cc,
              rw e (
                  SameBoth-append-right k o rest (
                    collect-untouched k docs rest m.2 collected
                      (subst (λ j. Dict.get docs j ≡ none) i_is_k m.1))),
            )
        | inr differs ↦
            let found : Dict.get docs k ≡ some x = ground arith in
            let (c', o', built', made', same) = collect-touched k docs rest x m.2 collected found in
            let other_id : str_eq d.doc_id k ≡ false = rw m.0 differs in
            (
              c',
              o',
              built',
              made',
              rw e (
                  SameBoth-trans k (o.0 ++ rest.0, o.1 ++ rest.1) rest o'
                    (SameBoth-append-left k o rest
                      (doc_ops-other d.doc_id k c d.actions o made other_id))
                    same),
            )
      ]

-- the documents of an id that remain by its last action
unfoldable pub settled : {C : Type 0} → Action → C → List C
settled insert c = c ∷ []
settled update c = c ∷ []
settled delete c = []
settled (other s) c = []

-- one of the actions that the program writes
abbrev pub Known : Action → Type 0
Known insert = Unit
Known update = Unit
Known delete = Unit
Known (other s) = ⊥

module _ {C : Type 0} (k : String) (c : C) where
  insert_ops-settled : (a : Action) → Known a → after_batch k (insert_ops k c a) [] ≡ settled a c
  unfolding insert_ops settled after_batch drops adds
  insert_ops-settled insert h = ground (arith, eq_refl k)
  insert_ops-settled update h = ground (arith, eq_refl k)
  insert_ops-settled delete h = refl
  insert_ops-settled (other s) h = absurd h

  change_ops-settled :
      (a : Action) (x y : List C)
      → Known a
      → (after_batch k (change_ops k c a).0 x ≡ settled a c)
        × (after_batch k (change_ops k c a).1 y ≡ [])
  unfolding change_ops settled after_batch drops adds
  change_ops-settled insert x y h = ground (arith, eq_refl k)
  change_ops-settled update x y h = ground (arith, eq_refl k)
  change_ops-settled delete x y h = ground (arith, eq_refl k)
  change_ops-settled (other s) x y h = absurd h

  -- An inserted document is added, so nothing may be there before.
  pub doc_ops-settled :
      (first : Action) (rest : List Action) (o : List (Op C) × List (Op C)) (x y : List C)
      → doc_ops k c (first ∷ rest) ≡ ok o
      → Known (last_of first rest)
      → (first ≡ insert → (x ≡ []) × (y ≡ []))
      → (after_batch k o.0 x ≡ settled (last_of first rest) c) × (after_batch k o.1 y ≡ [])
  unfolding doc_ops after_batch drops adds
  doc_ops-settled insert rest o x y h known fresh =
      rw (← ok_injective h) (rw (fresh refl).0 (insert_ops-settled _ known), rw (fresh refl).1 refl)
  doc_ops-settled update rest o x y h known fresh =
      rw (← ok_injective h) (change_ops-settled _ x y known)
  doc_ops-settled delete rest o x y h known fresh =
      rw (← ok_injective h) (change_ops-settled _ x y known)
  doc_ops-settled (other s) rest o x y h known fresh = cc

  insert_ops-added :
      (a : Action) (x : List C) → Known a → after_batch k (insert_ops k c a) x ≡ x ++ settled a c
  unfolding insert_ops settled after_batch drops adds
  insert_ops-added insert x h = ground (arith, eq_refl k)
  insert_ops-added update x h = ground (arith, eq_refl k)
  insert_ops-added delete x h = refl
  insert_ops-added (other s) x h = absurd h

  pub doc_ops-added :
      (rest : List Action) (o : List (Op C) × List (Op C)) (x : List C)
      → doc_ops k c (insert ∷ rest) ≡ ok o
      → Known (last_of insert rest)
      → after_batch k o.0 x ≡ x ++ settled (last_of insert rest) c
  unfolding doc_ops
  doc_ops-added rest o x h known =
      subst (λ o. after_batch k o.0 x ≡ x ++ settled (last_of insert rest) c) (ok_injective h)
        (insert_ops-added (last_of insert rest) x known)
