-- ===== src/Jobs/Slots.antt =====
-- worker/coordinator.go: the worker slots of a run.
use fragments.Base.{
  ℕ, zero, suc, ◌≤◌, ◌<◌, Bool, true, false, not, ◌≡◌, refl, sym, ap, ◌∙◌, subst, arith, List, [],
  ◌∷◌, map, ℤ, pos, negsuc, str_eq, All,
}
use fragments.Status.{
  WorkerStatus, Snapshot, Arithmetic, Event, ev_worker_start, ev_worker_idle, at_worker, start_item,
  go_idle, count_event, recompute, apply_event, apply_events,
}
use fragments.Jobs.{Coordinator, max_workers, positive_or, pool_size, slots, start, blank}

abbrev pub slot_ids : List WorkerStatus → List ℕ
slot_ids ws = map (λ w. w.id) ws

-- i, i + 1, …, as many as n.
abbrev pub count_from : ℕ → ℕ → List ℕ
count_from i zero = []
count_from i (suc n) = i ∷ count_from (suc i) n

slot_ids-slots : (i n : ℕ) → slot_ids (slots i n) ≡ count_from i n
unfolding slots
slot_ids-slots i zero = refl
slot_ids-slots i (suc n) = ap (◌∷◌ i) (slot_ids-slots (suc i) n)

slot_ids-at_worker :
    (i : ℕ) (f : WorkerStatus → WorkerStatus) (ws : List WorkerStatus)
    → ((w : WorkerStatus) → (f w).id ≡ w.id)
    → slot_ids (at_worker i f ws) ≡ slot_ids ws
unfolding at_worker
slot_ids-at_worker i f [] h = refl
slot_ids-at_worker zero f (w ∷ ws) h = rw (h w) refl
slot_ids-at_worker (suc i) f (w ∷ ws) h = ap (◌∷◌ w.id) (slot_ids-at_worker i f ws h)

-- Where the default is positive, a pool has a worker at least and thirty-two at most, whatever size is
-- asked for.
pub pool_size-bounds :
    (requested : ℤ) (d : ℕ)
    → 0 < d
    → (0 < pool_size requested d) × (pool_size requested d ≤ max_workers)
unfolding pool_size positive_or
pool_size-bounds (negsuc n) d h = ground arith
pool_size-bounds (pos zero) d h = ground arith
pool_size-bounds (pos (suc n)) d h = ground arith

-- A slot names a photo exactly while it is busy.
abbrev pub IsSlot : WorkerStatus → Type 0
IsSlot w = w.busy ≡ not (str_eq w.key_base "")

-- A worker starts on a photo with a key.
abbrev pub is_named : Event → Bool
is_named (ev_worker_start i k) = not (str_eq k "")
is_named _ = true

All-slots : (i n : ℕ) → All IsSlot (slots i n)
unfolding slots
All-slots i zero = tt
All-slots i (suc n) = (refl, All-slots (suc i) n)

All-at_worker :
    (i : ℕ) (f : WorkerStatus → WorkerStatus) (ws : List WorkerStatus)
    → ((w : WorkerStatus) → IsSlot (f w))
    → All IsSlot ws
    → All IsSlot (at_worker i f ws)
unfolding at_worker
All-at_worker i f [] h a = tt
All-at_worker zero f (w ∷ ws) h a = (h w, a.1)
All-at_worker (suc i) f (w ∷ ws) h a = (a.0, All-at_worker i f ws h a.1)

module _ {F : Type 0} (ops : Arithmetic F) where
  workers-apply_event :
      (t : F) (e : Event) (s : Snapshot F)
      → (apply_event ops t e s).0.workers ≡ (count_event ops e s).workers
  unfolding apply_event recompute
  workers-apply_event t e s = ground arith

  slot_ids-count_event :
      (e : Event) (s : Snapshot F) → slot_ids (count_event ops e s).workers ≡ slot_ids s.workers
  unfolding count_event start_item go_idle
  slot_ids-count_event (ev_worker_start i k) s =
      slot_ids-at_worker i (start_item k) s.workers (λ w. refl)
  slot_ids-count_event (ev_worker_idle i) s = slot_ids-at_worker i go_idle s.workers (λ w. refl)
  slot_ids-count_event _ s = refl

  slot_ids-apply_events :
      (clock : ℕ → F) (i : ℕ) (es : List Event) (s : Snapshot F)
      → slot_ids (apply_events ops clock i es s).workers ≡ slot_ids s.workers
  unfolding apply_events
  slot_ids-apply_events clock i [] s = refl
  slot_ids-apply_events clock i (e ∷ es) s =
      slot_ids-apply_events clock (suc i) es (apply_event ops (clock i) e s).0
      ∙ ap slot_ids (workers-apply_event (clock i) e s)
      ∙ slot_ids-count_event e s

  All-count_event :
      (e : Event) (s : Snapshot F)
      → is_named e ≡ true
      → All IsSlot s.workers
      → All IsSlot (count_event ops e s).workers
  unfolding count_event start_item go_idle
  All-count_event (ev_worker_start i k) s h a =
      All-at_worker i (start_item k) s.workers (λ w. sym h) a
  All-count_event (ev_worker_idle i) s h a = All-at_worker i go_idle s.workers (λ w. refl) a
  All-count_event _ s h a = a

  All-apply_events :
      (clock : ℕ → F) (i : ℕ) (es : List Event) (s : Snapshot F)
      → All (λ e. is_named e ≡ true) es
      → All IsSlot s.workers
      → All IsSlot (apply_events ops clock i es s).workers
  unfolding apply_events
  All-apply_events clock i [] s h a = a
  All-apply_events clock i (e ∷ es) s h a =
      All-apply_events clock (suc i) es (apply_event ops (clock i) e s).0 h.1
        (subst (All IsSlot) (sym (workers-apply_event (clock i) e s)) (All-count_event e s h.0 a))

  -- A run that is started keeps its worker slots over any events: they are numbered from zero, and
  -- there are as many as the bounded pool size.
  pub slot_ids-start :
      (requested : ℤ) (now : ℕ) (c : Coordinator F) (clock : ℕ → F) (es : List Event)
      → c.is_running ≡ false
      → slot_ids (apply_events ops clock 0 es (start ops requested now c).0.snap).workers
        ≡ count_from 0 (pool_size requested c.def_workers)
  unfolding start blank
  slot_ids-start requested now c clock es h =
      slot_ids-apply_events clock 0 es (start ops requested now c).0.snap
      ∙ rw (start, h) (slot_ids-slots 0 (pool_size requested c.def_workers))

  -- While the events name photos, a slot of a run that is started names one exactly while it is
  -- busy.
  pub start-IsSlot :
      (requested : ℤ) (now : ℕ) (c : Coordinator F) (clock : ℕ → F) (es : List Event)
      → c.is_running ≡ false
      → All (λ e. is_named e ≡ true) es
      → All IsSlot (apply_events ops clock 0 es (start ops requested now c).0.snap).workers
  unfolding start blank
  start-IsSlot requested now c clock es h named =
      All-apply_events clock 0 es (start ops requested now c).0.snap named
        (rw (start, h) (All-slots 0 (pool_size requested c.def_workers)))
