-- ===== src/Workers/Progress.antt =====
-- worker/coordinator.go: the concurrent scan cannot deadlock. In every state of a run that has not
-- ended some goroutine can go on.
use fragments.Status.{ev_phase, ev_worker_start, ev_worker_idle, ev_item_failed, cancelled, done}
use fragments.Base.{
  str_append, set, ℕ, zero, suc, ◌<◌, ◌≤◌, ◌≡◌, ◌≢◌, refl, String, Bool, true, none, some, List, [],
  ◌∷◌, ◌++◌, tally, arith, length, ltb, ◌⊎◌, inl, inr, get_elem?, Bool-cases, if◌then◌else◌,
  tally-get_elem?,
}
use fragments.Store.Rows.{Photo}
use fragments.Scan.{Disk, should_skip}
use fragments.Workers.Bound.{writer_work, main_work, measure, Step-measure}
use fragments.Workers.Leads.{move-Step}
use fragments.Workers.Sound.{live, present, IsSound, Step-IsSound, moves-IsSound}
use fragments.Workers.Settled.{present-carried}
use fragments.Workers.{
  Producer, at_head, checking, offering, stopped, Worker, waiting, got, working, sending, leaving,
  gone, Writer, ready, writing, drained, Main, joining, closing, ending, finished, System, Move,
  head, check, offer, withdraw, take_job, quit, begin, process, send, leave, take_result, write,
  close_writer, close_results, join_writer, finish, report, start_scan, produce, checked,
  skip_check, hand_over, give_up, receive, end_range, start_work, work, deliver, retire,
  fetch_result, store_result, end_writer, all_gone, wait_workers, wait_writer, wait_producer, move,
  moves,
}

module _ (thumb_path : String → String) (force : Bool) (cap : ℕ) where
  -- A move that is enabled, and where it leads.
  abbrev pub CanMove : System → Type 0
  CanMove s = (m : Move) × (t : System) × (move thumb_path force cap m s ≡ some t)

  -- The moves of the producer: only the select can wait, on a full channel.
  producer-moves :
      (q : Producer) (ps : List Photo) (s : System)
      → s.producer ≡ q
      → s.todo ≡ ps
      → live q ≡ 1
      → (length s.jobs < cap ⊎ s.is_cancelled ≡ true)
      → CanMove s
  unfolding move produce skip_check hand_over give_up
  producer-moves at_head [] s e f l r = (head, record s { producer = stopped }, rw (f, e) refl)
  producer-moves at_head (p ∷ ps) s e f l r = elim (Bool-cases s.is_cancelled) [
    | inl c ↦ (head, record s { producer = stopped }, rw (f, e, c) refl)
    | inr c ↦ (head, record s { todo = ps; producer = checking p }, rw (f, e, c) refl)
  ]
  producer-moves (checking p) ps s e f l r = (
    check none,
    checked thumb_path force cap (should_skip thumb_path none force p s.disk) p s,
    rw e refl,
  )
  producer-moves (offering p) ps s e f l (inl k) =
      (offer, record s { producer = at_head; jobs = s.jobs ++ p ∷ [] }, ground (arith))
  producer-moves (offering p) ps s e f l (inr c) =
      (withdraw, record s { producer = stopped; left_out = p ∷ s.left_out }, rw (e, c) refl)
  producer-moves stopped ps s e f l r = absurd (omega arith)

  -- The moves of the writer: it waits only on an empty channel that is still open.
  writer-moves :
      (v : Writer) (ps : List Photo) (s : System)
      → s.writer ≡ v
      → s.results ≡ ps
      → 1 ≤ writer_work v
      → (0 < length ps ⊎ main_work s.main ≤ 2)
      → CanMove s
  unfolding move fetch_result store_result end_writer
  writer-moves ready (p ∷ ps) s e f l r =
      (take_result, record s { results = ps; writer = writing p }, rw (e, f) refl)
  writer-moves ready [] s e f l (inl k) = absurd (omega arith)
  writer-moves ready [] s e f l (inr k) =
      (close_writer, record s { writer = drained }, ground (arith))
  writer-moves (writing p) ps s e f l r = (
    write (some "") "",
    report (ev_item_failed p.key_base (str_append "store: " "")) (record s { writer = ready }),
    rw e refl,
  )
  writer-moves drained ps s e f l r = absurd (omega arith)

  -- Some worker has not returned, or all of them have.
  someone :
      (ws : List Worker)
      → (all_gone ws ≡ true)
        ⊎ ((i : ℕ) × (w : Worker) × (get_elem? ws i ≡ some w) × (present w ≡ 1))
  someone [] = inl refl
  someone (waiting ∷ ws) = inr (0, waiting, refl, refl)
  someone (got p ∷ ws) = inr (0, got p, refl, refl)
  someone (working p ∷ ws) = inr (0, working p, refl, refl)
  someone (sending p ∷ ws) = inr (0, sending p, refl, refl)
  someone (leaving ∷ ws) = inr (0, leaving, refl, refl)
  someone (gone ∷ ws) = elim (someone ws) [ inl h ↦ inl h | inr h ↦ inr (suc h.0, h.1, h.2, h.3) ]

  module _ (room : 0 < cap) (n : ℕ) where
    -- A worker that waits for a job: there is one, or the producer can go on, or it has stopped.
    waiting-moves :
        (i : ℕ) (ps : List Photo) (q : Producer) (s : System)
        → get_elem? s.workers i ≡ some waiting
        → s.jobs ≡ ps
        → s.producer ≡ q
        → CanMove s
    unfolding move receive end_range
    waiting-moves i (p ∷ ps) q s e f g =
        (take_job i, record s { jobs = ps; workers = set s.workers i (got p) }, rw (e, f) refl)
    waiting-moves i [] stopped s e f g =
        (quit i, record s { workers = set s.workers i leaving }, rw (e, f, g) refl)
    waiting-moves i [] at_head s e f g =
        producer-moves at_head s.todo s g refl refl (inl (rw f (omega arith)))
    waiting-moves i [] (checking p) s e f g =
        producer-moves (checking p) s.todo s g refl refl (inl (rw f (omega arith)))
    waiting-moves i [] (offering p) s e f g =
        producer-moves (offering p) s.todo s g refl refl (inl (rw f (omega arith)))

    worker-moves :
        (i : ℕ) (w : Worker) (s : System)
        → IsSound n s
        → get_elem? s.workers i ≡ some w
        → present w ≡ 1
        → CanMove s
    unfolding move start_work end_range work deliver retire
    worker-moves i waiting s o e l = waiting-moves i s.jobs s.producer s e refl refl
    worker-moves i (got p) s o e l = elim (Bool-cases s.is_cancelled) [
      | inl c ↦ (
        quit i,
        record s { workers = set s.workers i leaving; left_out = p ∷ s.left_out },
        rw (e, c) refl,
      )
      | inr c ↦ (
        begin i,
        report (ev_worker_start i p.key_base) (record s { workers = set s.workers i (working p) }),
        rw (e, c) refl,
      )
    ]
    worker-moves i (working p) s o e l = elim (Bool-cases s.is_cancelled) [
      | inl c ↦ (
        process i (inr ""),
        record s { workers = set s.workers i leaving; left_out = p ∷ s.left_out },
        rw (e, c) refl,
      )
      | inr c ↦ (
        process i (inr ""),
        report (ev_item_failed p.key_base "") (record s { workers = set s.workers i waiting }),
        rw (e, c) refl,
      )
    ]
    worker-moves i (sending p) s o e l = elim (Bool-cases (ltb (length s.results) cap)) [
      | inl c ↦ (
        send i,
        record s { workers = set s.workers i waiting; results = s.results ++ p ∷ [] },
        rw (e, c) refl,
      )
      | inr c ↦
          let here_yet = tally-get_elem? present s.workers i (sending p) e in
          writer-moves s.writer s.results s refl refl (ground (arith)) (inl (ground (arith)))
    ]
    worker-moves i leaving s o e l = (
      leave i,
      report (ev_worker_idle i) (record s { workers = set s.workers i gone }),
      rw e refl,
    )
    worker-moves i gone s o e l = absurd (omega arith)

    -- At the end of run the producer still runs only behind a cancellation.
    ending-cancelled :
        (s : System)
        → 0 < n
        → IsSound n s
        → s.main ≡ ending
        → live s.producer ≡ 1
        → s.is_cancelled ≡ true
    ending-cancelled s k o e l =
        let all : tally present s.workers ≡ 0 = ground (arith) in
        ground (arith, present-carried (λ k. 0) s.workers all)

    -- run itself, from the stage it waits at.
    main-moves :
        (m : Main) (v : Writer) (q : Producer) (s : System)
        → 0 < n
        → IsSound n s
        → s.main ≡ m
        → s.writer ≡ v
        → s.producer ≡ q
        → m ≢ finished
        → CanMove s
    unfolding move wait_workers wait_writer wait_producer
    main-moves joining v q s k o e f g l = elim (someone s.workers) [
      | inl h ↦ (close_results, record s { main = closing }, rw (e, h) refl)
      | inr h ↦ worker-moves h.0 h.1 s o h.2 h.3
    ]
    main-moves closing drained q s k o e f g l =
        (join_writer, record s { main = ending }, rw (e, f) refl)
    main-moves closing ready q s k o e f g l =
        writer-moves ready s.results s f refl (omega arith) (inr (rw e (omega arith)))
    main-moves closing (writing p) q s k o e f g l =
        writer-moves (writing p) s.results s f refl (omega arith) (inr (rw e (omega arith)))
    main-moves ending v stopped s k o e f g l = (
      finish,
      report (ev_phase (if s.is_cancelled then cancelled else done)) (record s { main = finished }),
      rw (e, g) refl,
    )
    main-moves ending v at_head s k o e f g l =
        producer-moves at_head s.todo s g refl refl (inr (ending-cancelled s k o e (rw g refl)))
    main-moves ending v (checking p) s k o e f g l =
        producer-moves (checking p) s.todo s g refl refl
          (inr (ending-cancelled s k o e (rw g refl)))
    main-moves ending v (offering p) s k o e f g l =
        producer-moves (offering p) s.todo s g refl refl
          (inr (ending-cancelled s k o e (rw g refl)))
    main-moves finished v q s k o e f g l = absurd (l refl)

    is_finished : (m : Main) → (m ≡ finished) ⊎ (m ≢ finished)
    is_finished joining = inr (λ e. absurd (cc e))
    is_finished closing = inr (λ e. absurd (cc e))
    is_finished ending = inr (λ e. absurd (cc e))
    is_finished finished = inl refl

    -- The measure is fuel enough to go on to the end.
    completion :
        (f : ℕ) (s : System)
        → 0 < n
        → measure s ≤ f
        → IsSound n s
        → (ms : List Move) × (t : System) × (moves thumb_path force cap ms s ≡ some t)
          × (t.main ≡ finished)
    unfolding moves
    completion zero s k b o = elim (is_finished s.main) [
      | inl e ↦ ([], s, refl, e)
      | inr l ↦
          let go = main-moves s.main s.writer s.producer s k o refl refl refl l in
          let less = Step-measure thumb_path (move-Step thumb_path force cap go.0 s go.1 go.2) in
          absurd (omega arith)
    ]
    completion (suc f) s k b o = elim (is_finished s.main) [
      | inl e ↦ ([], s, refl, e)
      | inr l ↦
          let go = main-moves s.main s.writer s.producer s k o refl refl refl l in
          let st = move-Step thumb_path force cap go.0 s go.1 go.2 in
          let less = Step-measure thumb_path st in
          let rest = completion f go.1 k (omega arith) (Step-IsSound thumb_path n st o) in
          (go.0 ∷ rest.0, rest.1, rw (go.2) rest.2, rest.3)
    ]

-- A concurrent scan with a worker and room in its channels cannot deadlock: as long as run has not
-- ended, whatever the schedule so far, some goroutine can make a move.
pub moves-progress :
    (thumb_path : String → String) (force : Bool) (cap n : ℕ) (photos : List Photo) (removed : ℕ)
    (d : Disk) (ms : List Move) (s : System)
    → 0 < cap
    → 0 < n
    → moves thumb_path force cap ms (start_scan n photos removed d) ≡ some s
    → s.main ≢ finished
    → (m : Move) × (t : System) × (move thumb_path force cap m s ≡ some t)
moves-progress thumb_path force cap n photos removed d ms s room k h l =
    main-moves thumb_path force cap room n s.main s.writer s.producer s k
      (moves-IsSound thumb_path force cap n photos removed d ms s h) refl refl refl l

-- A concurrent scan with a worker and room in its channels can always be brought to its end: after
-- any schedule there is a further one that leads to the return of run.
pub moves-completes :
    (thumb_path : String → String) (force : Bool) (cap n : ℕ) (photos : List Photo) (removed : ℕ)
    (d : Disk) (ms : List Move) (s : System)
    → 0 < cap
    → 0 < n
    → moves thumb_path force cap ms (start_scan n photos removed d) ≡ some s
    → (more : List Move) × (t : System) × (moves thumb_path force cap more s ≡ some t)
      × (t.main ≡ finished)
moves-completes thumb_path force cap n photos removed d ms s room k h =
    completion thumb_path force cap room n (measure s) s k (omega arith)
      (moves-IsSound thumb_path force cap n photos removed d ms s h)
