-- ===== src/Streaming/Wire.antt =====
-- pkg/streaming/wire/wire.go: the messages of the stream. A JSON object is a value of a parameter
-- type; `is_empty` tells that it is an empty map, which `omitempty` leaves out.
pub mod RoundTrip
use zincsearch.Prelude.{
  ℕ, String, List, [], ◌∷◌, Bool, true, false, ◌≡◌, str_eq, if◌then◌else◌, Option, none, some,
  Result, ok, err,
}

pub record Doc (J : Type 0) : Type 0 where
  pub id : String
  pub doc : Option J

pub record Message (J : Type 0) : Type 0 where
  pub kind : String
  pub index : String
  pub id : String
  pub doc : Option J
  pub docs : List (Doc J)
  pub op : String
  pub raw : Option J  -- the field `Data`

abbrev pub kind_doc : String
kind_doc = "doc"

abbrev pub kind_docs : String
kind_docs = "docs"

abbrev pub kind_admin : String
kind_admin = "admin"

abbrev pub op_create_index : String
op_create_index = "create_index"

abbrev pub op_delete_index : String
op_delete_index = "delete_index"

abbrev pub op_set_mapping : String
op_set_mapping = "set_mapping"

-- What `Decode` refuses: each is a `PermanentError`.
pub data Refusal : Type 0 where
  not_json no_index no_doc no_docs empty_document no_op unknown_kind : Refusal

module _ {J : Type 0} where
  -- `NewDoc` and `NewDocs`
  abbrev pub new_doc : String → String → Option J → Message J
  new_doc index id doc = record {
    kind = kind_doc;
    index = index;
    id = id;
    doc = doc;
    docs = [];
    op = "";
    raw = none;
  }

  abbrev pub new_docs : String → List (Doc J) → Message J
  new_docs index docs = record {
    kind = kind_docs;
    index = index;
    id = "";
    doc = none;
    docs = docs;
    op = "";
    raw = none;
  }

  admin_of : String → String → Option J → Message J
  admin_of index op raw = record {
    kind = kind_admin;
    index = index;
    id = "";
    doc = none;
    docs = [];
    op = op;
    raw = raw;
  }

  -- `NewAdmin`; `none` is the error of `json.Marshal`
  unfoldable pub new_admin :
      {D : Type 0} → (D → Option J) → String → String → Option D → Option (Message J)
  unfolding admin_of
  new_admin marshal index op none = some (admin_of index op none)
  new_admin marshal index op (some d) = elim (marshal d) [
    | none ↦ none
    | some raw ↦ some (admin_of index op (some raw))
  ]

  abbrev is_some : Option J → Bool
  is_some none = false
  is_some (some j) = true

  -- the loop over `m.Docs`
  check_docs : List (Doc J) → Result Refusal (Unit {0})
  check_docs [] = ok tt
  check_docs (d ∷ ds) =
      let rest = check_docs ds in if is_some d.doc then rest else err empty_document

  some_docs : List (Doc J) → Result Refusal (Unit {0})
  unfolding check_docs
  some_docs [] = err no_docs
  some_docs (d ∷ ds) = check_docs (d ∷ ds)

  -- the `switch` of `Decode`
  unfoldable pub check : Message J → Result Refusal (Unit {0})
  unfolding some_docs
  check m =
      if str_eq m.kind kind_doc
      then (if str_eq m.index "" then err no_index else if is_some m.doc then ok tt else err no_doc)
      else if str_eq m.kind kind_docs
      then (if str_eq m.index "" then err no_index else some_docs m.docs)
      else if str_eq m.kind kind_admin
      then (if str_eq m.index "" then err no_index else if str_eq m.op "" then err no_op else ok tt)
      else err unknown_kind

  checked : Message J → Result Refusal (Unit {0}) → Result Refusal (Message J)
  checked m (ok _) = ok m
  checked m (err e) = err e

  read_message : Option (Message J) → Result Refusal (Message J)
  unfolding checked check
  read_message none = err not_json
  read_message (some m) = checked m (check m)

  -- `Decode`
  unfoldable pub decode : {B : Type 0} → (B → Option (Message J)) → B → Result Refusal (Message J)
  unfolding read_message
  decode unmarshal body = read_message (unmarshal body)
