-- ===== src/Status/Counts.antt =====
-- worker/coordinator.go: what applyEvent counts over the events of a run.
use fragments.Base.{
  ℕ, suc, ◌+◌, ◌-◌, ◌≤◌, ◌≡◌, refl, sym, ap, ◌∙◌, List, [], ◌∷◌, ◌++◌, append_assoc, append-nil,
  arith, length, tally, tally-append, length-append, length-drop, drop, drop-append_left, drop-drop,
}
use fragments.Status.{
  Event, Phase, ev_phase, ev_total, ev_item_done, ev_item_failed, ev_skip, Snapshot, Arithmetic,
  ItemError, max_errors_kept, apply_event, apply_events,
}

abbrev pub is_done : Event → ℕ
is_done (ev_item_done _ _) = 1
is_done _ = 0

abbrev pub is_failed : Event → ℕ
is_failed (ev_item_failed _ _) = 1
is_failed _ = 0

abbrev pub is_skip : Event → ℕ
is_skip (ev_skip _) = 1
is_skip _ = 0

-- The outcomes of photos among the events: processed, skipped or failed.
abbrev pub is_outcome : Event → ℕ
is_outcome e = is_done e + is_skip e + is_failed e

-- The bytes that an erased photo frees.
abbrev pub freed : Event → ℕ
freed (ev_item_done _ n) = n
freed _ = 0

abbrev pub outcomes : List Event → ℕ
outcomes = tally is_outcome

pub outcomes-append : (xs ys : List Event) → outcomes (xs ++ ys) ≡ outcomes xs + outcomes ys
outcomes-append xs ys = tally-append is_outcome xs ys

abbrev failure : Event → List ItemError
failure (ev_item_failed k m) = record { key_base = k; err = m } ∷ []
failure _ = []

abbrev pub failures : List Event → List ItemError
failures [] = []
failures (e ∷ es) = failure e ++ failures es

abbrev pub is_total : Event → ℕ
is_total (ev_total _) = 1
is_total _ = 0

abbrev pub finished : {F : Type 0} → Snapshot F → ℕ
finished s = s.processed + s.skipped + s.failed

-- The newest fifty of a list.
abbrev pub newest : List ItemError → List ItemError
newest es = drop (length es - max_errors_kept) es

newest_short : (es : List ItemError) → length es ≤ max_errors_kept → newest (es ++ []) ≡ es
newest_short es h =
    let none_over : length es - max_errors_kept ≡ 0 = omega arith in
    rw (append-nil es, none_over) refl

length-newest : (es : List ItemError) → length (newest es) ≤ max_errors_kept
length-newest es = omega (arith, length-drop (length es - max_errors_kept) es)

newest-append : (xs ys : List ItemError) → newest (newest xs ++ ys) ≡ newest (xs ++ ys)
newest-append xs ys =
    let n = length xs - max_errors_kept in
    let same : newest xs ++ ys ≡ drop n (xs ++ ys) = drop-append_left n xs ys (omega arith) in
    let over : n + (length (drop n (xs ++ ys)) - max_errors_kept)
        ≡ length (xs ++ ys) - max_errors_kept =
      omega (arith, length-drop n (xs ++ ys), length-append xs ys) in
    ap newest same
    ∙ drop-drop (length (drop n (xs ++ ys)) - max_errors_kept) n (xs ++ ys)
    ∙ ap (λ (k : ℕ). drop k (xs ++ ys)) over

module _ {F : Type 0} (ops : Arithmetic F) where
  -- What the counters of `s'` are, after those of `s` and the events.
  abbrev pub Counted : Snapshot F → List Event → Snapshot F → Type 0
  Counted s es s' =
      (s'.processed ≡ s.processed + tally is_done es)
      × (s'.skipped ≡ s.skipped + tally is_skip es)
      × (s'.failed ≡ s.failed + tally is_failed es)
      × (s'.bytes_freed ≡ s.bytes_freed + tally freed es)

  apply_event-Counted :
      (t : F) (e : Event) (s : Snapshot F) → Counted s (e ∷ []) (apply_event ops t e s).0
  unfolding apply_event
  apply_event-Counted t (ev_item_done k n) s = ground arith
  apply_event-Counted t (ev_item_failed k m) s = ground arith
  apply_event-Counted t (ev_skip k) s = ground arith
  apply_event-Counted t _ s = ground arith

  -- Each counter counts its events, and the freed bytes are those of the erased photos.
  pub apply_events-Counted :
      (clock : ℕ → F) (i : ℕ) (es : List Event) (s : Snapshot F)
      → Counted s es (apply_events ops clock i es s)
  unfolding apply_events
  apply_events-Counted clock i [] s = omega arith
  apply_events-Counted clock i (e ∷ es) s = omega (
    arith,
    apply_event-Counted (clock i) e s,
    apply_events-Counted clock (suc i) es (apply_event ops (clock i) e s).0,
  )

  tally-is_outcome :
      (es : List Event) → outcomes es ≡ tally is_done es + tally is_skip es + tally is_failed es
  tally-is_outcome [] = refl
  tally-is_outcome (e ∷ es) = omega (arith, tally-is_outcome es)

  pub finished-apply_events :
      (clock : ℕ → F) (i : ℕ) (es : List Event) (s : Snapshot F)
      → finished (apply_events ops clock i es s) ≡ finished s + outcomes es
  finished-apply_events clock i es s =
      omega (arith, apply_events-Counted clock i es s, tally-is_outcome es)

  -- After a last phase event the snapshot shows that phase.
  pub phase-apply_events :
      (clock : ℕ → F) (i : ℕ) (es : List Event) (p : Phase) (s : Snapshot F)
      → (apply_events ops clock i (es ++ ev_phase p ∷ []) s).phase ≡ p
  unfolding apply_events apply_event
  phase-apply_events clock i [] p s = ground arith
  phase-apply_events clock i (e ∷ es) p s =
      phase-apply_events clock (suc i) es p (apply_event ops (clock i) e s).0

  total-apply_event :
      (t : F) (e : Event) (s : Snapshot F)
      → is_total e ≡ 0
      → (apply_event ops t e s).0.total ≡ s.total
  unfolding apply_event
  total-apply_event t (ev_total n) s h = absurd (omega arith)
  total-apply_event t _ s h = ground arith

  pub total-apply_events :
      (clock : ℕ → F) (i : ℕ) (es : List Event) (s : Snapshot F)
      → tally is_total es ≡ 0
      → (apply_events ops clock i es s).total ≡ s.total
  unfolding apply_events
  total-apply_events clock i [] s h = refl
  total-apply_events clock i (e ∷ es) s h =
      total-apply_events clock (suc i) es (apply_event ops (clock i) e s).0 (omega arith)
      ∙ total-apply_event (clock i) e s (omega arith)

  errors-apply_event :
      (t : F) (e : Event) (s : Snapshot F)
      → length s.errors ≤ max_errors_kept
      → (apply_event ops t e s).0.errors ≡ newest (s.errors ++ failure e)
  unfolding apply_event
  errors-apply_event t (ev_item_failed k m) s h = ground arith
  errors-apply_event t _ s h = ground (arith, newest_short s.errors h)

  -- From fifty kept errors at most, over any events, the kept errors are the newest fifty of those
  -- before and the failures of the run, oldest first.
  pub errors-apply_events :
      (clock : ℕ → F) (i : ℕ) (es : List Event) (s : Snapshot F)
      → length s.errors ≤ max_errors_kept
      → (apply_events ops clock i es s).errors ≡ newest (s.errors ++ failures es)
  unfolding apply_events
  errors-apply_events clock i [] s h = sym (newest_short s.errors h)
  errors-apply_events clock i (e ∷ es) s h =
      let s' = (apply_event ops (clock i) e s).0 in
      let kept = errors-apply_event (clock i) e s h in
      let later = failures es in
      errors-apply_events clock (suc i) es s' (rw kept (length-newest (s.errors ++ failure e)))
      ∙ ap (λ (l : List ItemError). newest (l ++ later)) kept
      ∙ newest-append (s.errors ++ failure e) later
      ∙ ap newest (append_assoc s.errors (failure e) later)
