-- ===== src/Coordinator/Publisher/Order/Batch.antt =====
-- How far the batch that `drain` sends has come.
use zincsearch.Prelude.{
  ℕ, List, [], ◌∷◌, ◌++◌, ◌≡◌, ◌≢◌, refl, ap, ◌∙◌, sym, subst, ◌⊎◌, inl, inr, append_assoc,
  append-nil, take, drop, take-append-drop, length, arith,
}
use zincsearch.Coordinator.Buffer.{Entry, Item}
use zincsearch.Coordinator.Buffer.Queue.{IsAscending}
use zincsearch.Coordinator.Buffer.Queue.Kept.{kept}
use zincsearch.Coordinator.Publisher.{Drain, idle, sending}
use zincsearch.Coordinator.Publisher.Within.{
  IsWithin, IsWithin-grow, IsWithin-both, IsWithin-front, entries, entries-append, kept-split,
}

-- None of the batch is sent, or `last` is the last item of it that is.
abbrev pub IsLast : ℕ → List Item → List Item → Type 0
IsLast last sent todo =
    ((sent ≡ []) × (todo ≢ []) × (last ≡ 0))
    ⊎ ((s : List Item) × (i : Item) × (sent ≡ s ++ i ∷ []) × (i.seq ≡ last))

-- `gone` are the messages that left the buffer. They are in the stream, in order, and so are after
-- them those of the queue that the batch has sent.
abbrev pub Progress : List Item → List Entry → List Entry → Drain → Type 0
Progress q gone stream idle = IsWithin gone stream
Progress q gone stream (sending todo last) =
    (sent : List Item) × (more : List Item) × (q ≡ sent ++ (todo ++ more))
    × IsWithin (gone ++ entries sent) stream
    × IsLast last sent todo

pub Progress-grow :
    (q : List Item) (gone stream zs : List Entry) (d : Drain)
    → Progress q gone stream d
    → Progress q gone (stream ++ zs) d
Progress-grow q gone stream zs idle h = IsWithin-grow zs h
Progress-grow q gone stream zs (sending todo last) (sent, more, e, w, l) =
    (sent, more, e, IsWithin-grow zs w, l)

pub Progress-idle :
    (q : List Item) (gone stream : List Entry) (d : Drain)
    → Progress q gone stream d
    → IsWithin gone stream
Progress-idle q gone stream idle h = h
Progress-idle q gone stream (sending todo last) (sent, more, e, w, l) =
    IsWithin-front gone (entries sent) w

pub Progress-append :
    (q r : List Item) (gone stream : List Entry) (d : Drain)
    → Progress q gone stream d
    → Progress (q ++ r) gone stream d
Progress-append q r gone stream idle h = h
Progress-append q r gone stream (sending todo last) (sent, more, e, w, l) = (
  sent,
  more ++ r,
  rw e (append_assoc sent (todo ++ more) r ∙ ap (λ t. sent ++ t) (append_assoc todo more r)),
  w,
  l,
)

front_empty : (s t : List Item) → [] ≡ s ++ t → s ≡ []
front_empty [] t e = refl
front_empty (i ∷ s) t e = cc

-- A message may go to the stream directly when nothing waits.
pub Progress-direct :
    (gone stream : List Entry) (e : Entry) (d : Drain)
    → Progress [] gone stream d
    → Progress [] (gone ++ e ∷ []) (stream ++ e ∷ []) d
Progress-direct gone stream e idle h = IsWithin-both e h
Progress-direct gone stream e (sending todo last) (sent, more, q, w, l) =
    let none_sent : sent ≡ [] = front_empty sent (todo ++ more) q in
    let w' = IsWithin-front gone (entries sent) w in
    (
      sent,
      more,
      q,
      subst (λ s. IsWithin ((gone ++ e ∷ []) ++ entries s) (stream ++ e ∷ [])) (sym none_sent)
          (rw (append-nil (gone ++ e ∷ [])) (IsWithin-both e w')),
      l,
    )

-- The next item of the batch is sent.
pub Progress-send :
    (q rest : List Item) (it : Item) (last : ℕ) (gone stream : List Entry)
    → Progress q gone stream (sending (it ∷ rest) last)
    → Progress q gone (stream ++ it.entry ∷ []) (sending rest it.seq)
Progress-send q rest it last gone stream (sent, more, e, w, l) = (
  sent ++ it ∷ [],
  more,
  e ∙ sym (append_assoc sent (it ∷ []) (rest ++ more)),
  subst (λ t. IsWithin t (stream ++ it.entry ∷ []))
      (append_assoc gone (entries sent) (it.entry ∷ [])
        ∙ ap (λ t. gone ++ t) (sym (entries-append sent (it ∷ []))))
      (IsWithin-both it.entry w),
  inr (sent, it, refl, refl),
)

-- A batch begins with what `Peek` gives.
pub Progress-begin :
    (n : ℕ) (q : List Item) (it : Item) (rest : List Item) (gone stream : List Entry)
    → take n q ≡ it ∷ rest
    → IsWithin gone stream
    → Progress q gone stream (sending (it ∷ rest) 0)
Progress-begin n q it rest gone stream e w = (
  [],
  drop n q,
  subst (λ t. q ≡ t ++ drop n q) e (sym (take-append-drop n q)),
  rw (append-nil gone) w,
  inl (refl, (λ wrong. cc), refl),
)

-- Removing what is sent of a batch leaves the rest of the queue.
pub Progress-remove :
    (q todo : List Item) (last : ℕ) (acc gone stream : List Entry)
    → acc ≡ gone ++ entries q
    → IsAscending q
    → (sent more s : List Item) (i : Item) → q ≡ sent ++ (todo ++ more)
    → IsWithin (gone ++ entries sent) stream
    → sent ≡ s ++ i ∷ []
    → i.seq ≡ last
    → (gone' : List Entry) × (acc ≡ gone' ++ entries (kept last q)) × IsWithin gone' stream
Progress-remove q todo last acc gone stream split order sent more s i e w e' l =
    let whole : q ≡ s ++ i ∷ (todo ++ more) =
      e ∙ ap (λ t. t ++ (todo ++ more)) e' ∙ append_assoc s (i ∷ []) (todo ++ more) in
    let left : kept last q ≡ todo ++ more =
      subst (λ n. kept n q ≡ todo ++ more) l
        (ap (kept i.seq) whole ∙ kept-split s i (todo ++ more) (subst IsAscending whole order)) in
    (
      gone ++ entries sent,
      split
          ∙ ap (λ t. gone ++ entries t) e
          ∙ ap (λ t. gone ++ t) (entries-append sent (todo ++ more))
          ∙ sym (append_assoc gone (entries sent) (entries (todo ++ more)))
          ∙ ap (λ t. (gone ++ entries sent) ++ entries t) (sym left),
      w,
    )

snoc-nonempty : (s : List Item) (i : Item) → (s ++ i ∷ []) ≢ []
snoc-nonempty [] i e = cc
snoc-nonempty (x ∷ s) i e = cc

pub empty-queue : (q : List Item) → length q ≡ 0 → q ≡ []
empty-queue [] e = refl
empty-queue (i ∷ q) e = absurd (omega (arith, e))

-- A batch is taken from a queue that is not empty, and is on it until it is removed.
pub Progress-busy :
    (q : List Item) (gone stream : List Entry) (todo : List Item) (last : ℕ)
    → Progress q gone stream (sending todo last)
    → q ≢ []
Progress-busy q gone stream [] last (sent, more, e, w, inl (none_sent, some_left, zero')) none' =
    some_left refl
Progress-busy q gone stream (i ∷ todo) last (sent, more, e, w, inl (none_sent, some_left, zero'))
      none' =
    cc (e, none', none_sent)
Progress-busy q gone stream todo last (sent, more, e, w, inr (s, i, e', l)) none' =
    let nothing = front_empty sent (todo ++ more) (sym none' ∙ e) in
    snoc-nonempty s i (sym e' ∙ nothing)
