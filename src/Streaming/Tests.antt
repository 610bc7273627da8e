-- ===== src/Streaming/Tests.antt =====
-- The messages of the stream on small inputs, with objects that are lists of numbers.
use zincsearch.Prelude.{
  String, sym, ◌∙◌, str_eq, ℕ, List, [], ◌∷◌, Bool, true, false, ◌≡◌, ◌≢◌, refl, some, ok, err, ◌↔◌,
  eq_iff, false≢true, ◌%◌,
}
use zincsearch.Prelude.{◌+◌, ◌==◌, ◌≤◌, ◌<◌, if◌then◌else◌, arith, none}
use zincsearch.Prelude.Int.{pos}
use zincsearch.Streaming.Consumer.{
  applied_it, transient, Outside, Config, Msg, StreamState, did, skipped, saved, acked, flushed,
  Consumer, stopped, prepare, step,
}
use zincsearch.Streaming.Consumer.Trail.{IsAscending}
use zincsearch.Streaming.Consumer.Justified.{AllJustified}
use zincsearch.Streaming.Consumer.Crash.{Ends, step_survives_crash}
use zincsearch.Streaming.Consumer.Position.{delivers, IsConsumed, prepare_continues}
use zincsearch.Streaming.Wire.{Doc, Message, new_doc, new_docs, no_doc, decode}
use zincsearch.Streaming.Wire.RoundTrip.{
  Json, omit, IsJson, IsValid, decode-ok, doc_arrives_unless_empty,
}

is_nothing : List ℕ → Bool
is_nothing [] = true
is_nothing (n ∷ ns) = false

abbrev json : Json (List ℕ) (Message (List ℕ))
json = record {
  is_empty = is_nothing;
  marshal = λ m. record m { doc = omit is_nothing m.doc };
  unmarshal = some;
}

json-IsJson : IsJson json
json-IsJson = λ m. refl

differ : (a b : String) → str_eq a b ≡ false → a ≢ b
differ a b h e = false≢true (sym h ∙ (eq_iff a b).1 e)

abbrev docs : List (Doc (List ℕ))
docs = record { id = "1"; doc = some [] } ∷ record { id = ""; doc = some (7 ∷ []) } ∷ []

decode-ok_example : (decode json.unmarshal (new_docs "books" docs) ≡ ok (new_docs "books" docs)) ↔ (
    (some (new_docs "books" docs) ≡ some (new_docs "books" docs)) × IsValid (new_docs "books" docs))
decode-ok_example = decode-ok json.unmarshal (new_docs "books" docs) (new_docs "books" docs)

doc_arrives_unless_empty_example :
    decode json.unmarshal (json.marshal (new_doc "books" "1" (some []))) ≡ err no_doc
unfolding is_nothing
doc_arrives_unless_empty_example =
    doc_arrives_unless_empty json "books" "1" [] json-IsJson (differ "books" "" refl)

-- An engine that fails once, at the first message that it is given.
abbrev engine : Outside (List ℕ)
engine = record {
  World = ℕ;
  apply = λ w seq m. (if w == 0 then transient else applied_it, w + 1);
  flush = λ w. (true, w);
  save = λ w seq. (true, w);
}

abbrev at_two : ℕ → Consumer ℕ
at_two patience = record {
  world = 0;
  applied = 2;
  stream_last = 4;
  total = 2;
  skips = 0;
  last_err = none;
  patience = patience;
  events = [];
}

abbrev settings : Config
settings = record { subject = "logs"; batch = pos 2; allow_gap = false }

abbrev message : ℕ → Msg (Message (List ℕ))
message q = record { sequence = some q; body = new_doc "books" "1" (some (q ∷ [])) }

-- the third message is delivered again, and the fourth is JSON for nothing that can be applied
abbrev batch : List (Msg (Message (List ℕ)))
batch = message 2 ∷ message 3 ∷ record { sequence = some 4; body = new_doc "" "" none } ∷ []

batch-IsAscending : IsAscending batch
batch-IsAscending = (
  λ s e. ((λ q e'. ground (arith, e, e')), ((λ q e'. ground (arith, e, e')), tt)),
  (λ s e. ((λ q e'. ground (arith, e, e')), tt), ((λ s e. tt), tt)),
)

retried :
    (step engine json.unmarshal settings (some batch) false none (at_two 1)).1.events
    ≡ acked 4 ∷ acked 3 ∷ acked 2 ∷ saved 4 ∷ flushed ∷ skipped 4 ∷ did 3 ∷ []
unfolding step decode
retried = refl

given_up : (step engine json.unmarshal settings (some batch) false none (at_two 0)).0 ≡ err stopped
unfolding step decode
given_up = refl

step_survives_crash_example :
    Ends batch 2 (step engine json.unmarshal settings (some batch) false none (at_two 1)).1
    × AllJustified engine json.unmarshal batch
        (step engine json.unmarshal settings (some batch) false none (at_two 1)).1
step_survives_crash_example =
    step_survives_crash engine json.unmarshal settings batch false none (at_two 1) batch-IsAscending
      refl

abbrev kept : StreamState
kept = record { msgs = 3; first_seq = 2; last_seq = 4 }

creates :
    (prepare settings true (some kept) true true (at_two 0)).0
    ≡ ok (record { max_ack_pending = 4; filter_subject = "logs"; from = some 3 })
unfolding prepare
creates = refl

-- every second message is on the subject
on_logs : String → ℕ → Bool
on_logs subject q = q % 2 == 0

prepare_continues_example :
    ((q : ℕ)
      → 1 ≤ q
      → 2 ≤ q
      → (delivers on_logs (record { max_ack_pending = 4; filter_subject = "logs"; from = some 3 }) q
          ≡ true)
        ↔ ((2 < q) × IsConsumed on_logs settings q))
    × (2 ≤ 4)
    × (settings.allow_gap ≡ false → 2 ≤ 2 + 1)
prepare_continues_example =
    prepare_continues on_logs settings true true true kept (at_two 0)
      (record { max_ack_pending = 4; filter_subject = "logs"; from = some 3 }) (omega arith)
      (omega arith) creates
