-- ===== src/Streaming/Wire/RoundTrip.antt =====
-- What survives the stream.
use zincsearch.Prelude.{
  String, List, [], ◌∷◌, Bool, false, ◌≡◌, ◌≢◌, ◌↔◌, str_eq, eq_iff, if◌then◌else◌, Option, none,
  some, Result, ok, err, arith, All, Bool-cases, inl, inr, refl, sym, subst, ◌⊎◌,
}
use zincsearch.Streaming.Wire.{
  Doc, Message, kind_doc, kind_docs, kind_admin, Refusal, no_doc, new_doc, check, check_docs,
  some_docs, checked, read_message, decode,
}

-- `encoding/json` on a message: what is read back is the message without its empty maps, slices and
-- texts, which `omitempty` leaves out, so a map that is empty comes back as none.
pub record Json (J B : Type 0) : Type 0 where
  pub is_empty : J → Bool
  pub marshal : Message J → B
  pub unmarshal : B → Option (Message J)

other_kind : (k a b : String) → k ≡ a → str_eq a b ≡ false → str_eq k b ≡ false
other_kind k a b p h = rw p h

unnamed : (index : String) → index ≢ "" → str_eq index "" ≡ false
unnamed index named = elim (Bool-cases (str_eq index "")) [
  | inl empty ↦ absurd (named ((eq_iff _ _).0 empty))
  | inr full ↦ full
]

module _ {J : Type 0} where
  abbrev pub omit : (J → Bool) → Option J → Option J
  omit is_empty none = none
  omit is_empty (some j) = if is_empty j then none else some j

  abbrev pub AllHaveDocs : List (Doc J) → Type 0
  AllHaveDocs = All (λ d. d.doc ≢ none)

  -- What each kind of message needs.
  abbrev pub IsValid : Message J → Type 0
  IsValid m =
      (m.index ≢ "")
      × (((m.kind ≡ kind_doc) × (m.doc ≢ none))
          ⊎ (((m.kind ≡ kind_docs) × (m.docs ≢ []) × AllHaveDocs m.docs)
              ⊎ ((m.kind ≡ kind_admin) × (m.op ≢ ""))))

  check_docs_iff : (ds : List (Doc J)) → (check_docs ds ≡ ok tt) ↔ AllHaveDocs ds
  unfolding check_docs
  check_docs_iff [] = (λ _. tt, λ _. refl)
  check_docs_iff (d ∷ ds) = (
    λ h. (λ e. ground (arith, e), (check_docs_iff ds).0 (ground arith)),
    λ h. ground (arith, (check_docs_iff ds).1 h.1, h.0),
  )

  some_docs_iff : (ds : List (Doc J)) → (some_docs ds ≡ ok tt) ↔ ((ds ≢ []) × AllHaveDocs ds)
  unfolding some_docs
  some_docs_iff [] = (λ h. cc, λ h. absurd (h.0 refl))
  some_docs_iff (d ∷ ds) =
      (λ h. (λ e. cc, (check_docs_iff (d ∷ ds)).0 h), λ h. (check_docs_iff (d ∷ ds)).1 h.1)

  check-doc :
      (m : Message J) → m.kind ≡ kind_doc → (check m ≡ ok tt) ↔ ((m.index ≢ "") × (m.doc ≢ none))
  unfolding check
  check-doc m k = (
    λ h. (
      λ e. ground (arith, k, e, eq_iff m.kind kind_doc, eq_iff m.index ""),
      λ e. ground (arith, k, e, eq_iff m.kind kind_doc, eq_iff m.index ""),
    ),
    λ h. ground (arith, k, h.0, h.1, eq_iff m.kind kind_doc, eq_iff m.index ""),
  )

  check-docs :
      (m : Message J)
      → m.kind ≡ kind_docs
      → (check m ≡ ok tt) ↔ ((m.index ≢ "") × (m.docs ≢ []) × AllHaveDocs m.docs)
  unfolding check
  check-docs m k = elim (Bool-cases (str_eq m.index "")) [
    | inl empty ↦
        rw (other_kind m.kind kind_docs kind_doc k refl, (eq_iff _ _).1 k, empty)
          (λ h. cc, λ h. absurd (h.0 ((eq_iff _ _).0 empty)))
    | inr full ↦
        rw (other_kind m.kind kind_docs kind_doc k refl, (eq_iff _ _).1 k, full)
          (
            λ h. (
              λ e. cc (full, (eq_iff _ _).1 e),
              ((some_docs_iff m.docs).0 h).0,
              ((some_docs_iff m.docs).0 h).1,
            ),
            λ h. (some_docs_iff m.docs).1 (h.1, h.2),
          )
  ]

  check-admin :
      (m : Message J) → m.kind ≡ kind_admin → (check m ≡ ok tt) ↔ ((m.index ≢ "") × (m.op ≢ ""))
  unfolding check
  check-admin m k =
      rw
        (
          other_kind m.kind kind_admin kind_doc k refl,
          other_kind m.kind kind_admin kind_docs k refl,
          (eq_iff _ _).1 k,
        )
        (
          λ h. (
            λ e. ground (arith, e, eq_iff m.index "", eq_iff m.op ""),
            λ e. ground (arith, e, eq_iff m.index "", eq_iff m.op ""),
          ),
          λ h. ground (arith, h.0, h.1, eq_iff m.index "", eq_iff m.op ""),
        )

  check-no_kind :
      (m : Message J)
      → str_eq m.kind kind_doc ≡ false
      → str_eq m.kind kind_docs ≡ false
      → str_eq m.kind kind_admin ≡ false
      → check m ≢ ok tt
  unfolding check
  check-no_kind m a b d h = cc (rw (a, b, d) at h)

  check-IsValid : (m : Message J) → (check m ≡ ok tt) ↔ IsValid m
  check-IsValid m = (
    λ h. elim (Bool-cases (str_eq m.kind kind_doc)) [
      | inl k ↦ let v = (check-doc m ((eq_iff _ _).0 k)).0 h in (v.0, inl ((eq_iff _ _).0 k, v.1))
      | inr a ↦ elim (Bool-cases (str_eq m.kind kind_docs)) [
        | inl k ↦
            let v = (check-docs m ((eq_iff _ _).0 k)).0 h in
            (v.0, inr (inl ((eq_iff _ _).0 k, v.1, v.2)))
        | inr b ↦ elim (Bool-cases (str_eq m.kind kind_admin)) [
          | inl k ↦
              let v = (check-admin m ((eq_iff _ _).0 k)).0 h in
              (v.0, inr (inr ((eq_iff _ _).0 k, v.1)))
          | inr d ↦ absurd (check-no_kind m a b d h)
        ]
      ]
    ],
    λ v. elim v.1 [
      | inl (k, d) ↦ (check-doc m k).1 (v.0, d)
      | inr (inl (k, d, all)) ↦ (check-docs m k).1 (v.0, d, all)
      | inr (inr (k, o)) ↦ (check-admin m k).1 (v.0, o)
    ],
  )

  checked-ok :
      (m m' : Message J) (r : Result Refusal (Unit {0}))
      → (checked m r ≡ ok m') ↔ ((m ≡ m') × (r ≡ ok tt))
  unfolding checked
  checked-ok m m' (ok _) = (λ h. (cc, refl), λ h. cc (h.0))
  checked-ok m m' (err e) = (λ h. cc, λ h. cc (h.1))

  read_message-ok :
      (o : Option (Message J)) (m : Message J)
      → (read_message o ≡ ok m) ↔ ((o ≡ some m) × IsValid m)
  unfolding read_message
  read_message-ok none m = (λ h. cc, λ h. cc (h.0))
  read_message-ok (some m') m = (
    λ h.
        let (same, good) = (checked-ok m' m (check m')).0 h in
        (cc (same), subst IsValid same ((check-IsValid m').0 good)),
    λ h.
        let same : m' ≡ m = cc (h.0) in
        (checked-ok m' m (check m')).1 (same, (check-IsValid m').1 (subst IsValid (sym same) h.1)),
  )

module _ {J B : Type 0} where
  abbrev pub IsJson : Json J B → Type 0
  IsJson c =
      (m : Message J) → c.unmarshal (c.marshal m) ≡ some (record m { doc = omit c.is_empty m.doc })

  -- A body decodes to a message exactly when it is JSON for it and the message has what its kind
  -- needs: an index, and a document, or documents that are all there, or an operation.
  pub decode-ok :
      (unmarshal : B → Option (Message J)) (body : B) (m : Message J)
      → (decode unmarshal body ≡ ok m) ↔ ((unmarshal body ≡ some m) × IsValid m)
  decode-ok unmarshal body m = unfold decode in read_message-ok (unmarshal body) m

  -- With JSON that reads back what it wrote, less what it leaves out: a single document of an index
  -- with a name arrives as it was sent when it is no empty object; the JSON of an empty one has no `doc`, and `Decode` refuses the message for good.
  pub doc_arrives_unless_empty :
      (c : Json J B) (index id : String) (j : J)
      → IsJson c
      → index ≢ ""
      → decode c.unmarshal (c.marshal (new_doc index id (some j)))
        ≡ (if c.is_empty j then err no_doc else ok (new_doc index id (some j)))
  unfolding decode read_message check checked
  doc_arrives_unless_empty c index id j json named = elim (Bool-cases (c.is_empty j)) [
    | inl empty ↦ rw (json (new_doc index id (some j)), empty, unnamed index named) refl
    | inr full ↦ rw (json (new_doc index id (some j)), full, unnamed index named) refl
  ]
