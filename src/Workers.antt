-- ===== src/Workers.antt =====
-- worker/coordinator.go: the concurrent scan. One move is one communication or one step of a
-- goroutine: the producer, a worker, the writer, or run itself, which waits for them. A schedule is
-- a list of moves; a move that is not enabled answers `none`. The events are the log, since
-- statusLoop takes every one of them.
pub mod Steps
pub mod Leads
pub mod Balance
pub mod Bound
pub mod Sound
pub mod Settled
pub mod Counts
pub mod Progress
use fragments.Base.{
  ℕ, zero, suc, ◌+◌, ◌*◌, String, Bool, true, false, not, ◌&&◌, ◌||◌, Option, none, some, List, [],
  ◌∷◌, ◌++◌, ◌⊎◌, inl, inr, if◌then◌else◌, ltb, length, ◌>>=◌, get_elem?, set, str_append,
}
use fragments.Store.Rows.{Photo, Metadata, upsert}
use fragments.Status.{
  Event, ev_phase, ev_total, ev_worker_start, ev_worker_idle, ev_item_done, ev_item_failed, ev_skip,
  ev_removed, Phase, error, running, cancelled, done,
}
use fragments.Scan.{Disk, RunOptions, limit_photos, reconcile_missing, should_skip}

-- The loop over the photos: at its head, inside the skip check, at the select, and returned.
pub data Producer : Type 0 where
  at_head : Producer
  checking : Photo → Producer
  offering : Photo → Producer
  stopped : Producer

-- A worker goroutine: waiting at the range, before the test of the context, inside ProcessNoStore,
-- at the send, behind the loop, and returned.
pub data Worker : Type 0 where
  waiting : Worker
  got : Photo → Worker
  working : Photo → Worker
  sending : Photo → Worker
  leaving : Worker
  gone : Worker

pub data Writer : Type 0 where
  ready : Writer
  writing : Photo → Writer
  drained : Writer

-- run: at wg.Wait, at <-writerDone with the results closed, at <-producerDone, and behind finish.
pub data Main : Type 0 where
  joining : Main
  closing : Main
  ending : Main
  finished : Main

-- `left_out` keeps the photos that a goroutine held when it saw the cancellation.
pub record System : Type 0 where
  pub disk : Disk
  pub todo : List Photo
  pub producer : Producer
  pub jobs : List Photo
  pub workers : List Worker
  pub results : List Photo
  pub writer : Writer
  pub main : Main
  pub is_cancelled : Bool
  pub left_out : List Photo
  pub log : List Event

-- The moves, with what the environment answers: the database's faults, what ProcessNoStore makes of
-- a photo, and the clock.
pub data Move : Type 0 where
  cancel : Move
  head : Move
  check : Option String → Move
  offer : Move
  withdraw : Move
  take_job : ℕ → Move
  quit : ℕ → Move
  begin : ℕ → Move
  process : ℕ → Metadata ⊎ String → Move
  send : ℕ → Move
  leave : ℕ → Move
  take_result : Move
  write : Option String → String → Move
  close_writer : Move
  close_results : Move
  join_writer : Move
  finish : Move

abbrev pub report : Event → System → System
report e s = record s { log = s.log ++ e ∷ [] }

abbrev pub is_stopped : Producer → Bool
is_stopped stopped = true
is_stopped q = false

abbrev pub is_joining : Main → Bool
is_joining joining = true
is_joining m = false

abbrev pub is_gone : Worker → Bool
is_gone gone = true
is_gone w = false

abbrev pub all_gone : List Worker → Bool
all_gone [] = true
all_gone (w ∷ ws) = is_gone w && all_gone ws

abbrev pub populated : (String → String) → Photo → Metadata → Photo
populated thumb_path p m = record p { thumb_path = thumb_path p.key_base; meta = m }

-- `thumb_path` is Cataloger.thumbPath, `force` the option, `cap` the room of the two channels.
module _ (thumb_path : String → String) (force : Bool) (cap : ℕ) where
  -- The head of the loop tests the context first.
  unfoldable pub produce : List Photo → Producer → System → Option System
  produce [] at_head s = some (record s { producer = stopped })
  produce (p ∷ ps) at_head s =
      if s.is_cancelled
      then some (record s { producer = stopped })
      else some (record s { todo = ps; producer = checking p })
  produce ps q s = none

  unfoldable pub checked : Bool ⊎ String → Photo → System → System
  checked (inr e) p s =
      report (ev_item_failed p.key_base (str_append "skip-check: " e))
        (record s { producer = at_head })
  checked (inl true) p s = report (ev_skip p.key_base) (record s { producer = at_head })
  checked (inl false) p s = record s { producer = offering p }

  unfoldable pub skip_check : Option String → Producer → System → Option System
  unfolding checked
  skip_check fault (checking p) s = some (checked (should_skip thumb_path fault force p s.disk) p s)
  skip_check fault q s = none

  -- case jobs <- p
  unfoldable pub hand_over : Producer → System → Option System
  hand_over (offering p) s =
      if ltb (length s.jobs) cap
      then some (record s { producer = at_head; jobs = s.jobs ++ p ∷ [] })
      else none
  hand_over q s = none

  -- case <-ctx.Done()
  unfoldable pub give_up : Producer → System → Option System
  give_up (offering p) s =
      if s.is_cancelled
      then some (record s { producer = stopped; left_out = p ∷ s.left_out })
      else none
  give_up q s = none

  -- for p := range jobs: a job, or the end of a closed and empty channel.
  unfoldable pub receive : ℕ → Worker → List Photo → System → Option System
  receive i waiting (p ∷ ps) s = some (record s { jobs = ps; workers = set s.workers i (got p) })
  receive i w ps s = none

  unfoldable pub end_range : ℕ → Worker → List Photo → System → Option System
  end_range i waiting [] s =
      if is_stopped s.producer then some (record s { workers = set s.workers i leaving }) else none
  end_range i (got p) ps s =
      if s.is_cancelled
      then some (record s { workers = set s.workers i leaving; left_out = p ∷ s.left_out })
      else none
  end_range i w ps s = none

  unfoldable pub start_work : ℕ → Worker → System → Option System
  start_work i (got p) s =
      if s.is_cancelled
      then none
      else some (
          report (ev_worker_start i p.key_base)
            (record s { workers = set s.workers i (working p) }))
  start_work i w s = none

  -- A failure after the cancellation ends the worker and is not counted.
  unfoldable pub work : ℕ → Metadata ⊎ String → Worker → System → Option System
  work i (inl m) (working p) s = some (record s {
    disk = record s.disk { thumbs = thumb_path p.key_base ∷ s.disk.thumbs };
    workers = set s.workers i (sending (populated thumb_path p m));
  })
  work i (inr e) (working p) s =
      if s.is_cancelled
      then some (record s { workers = set s.workers i leaving; left_out = p ∷ s.left_out })
      else some
          (report (ev_item_failed p.key_base e) (record s { workers = set s.workers i waiting }))
  work i o w s = none

  unfoldable pub deliver : ℕ → Worker → System → Option System
  deliver i (sending p) s =
      if ltb (length s.results) cap
      then some (record s { workers = set s.workers i waiting; results = s.results ++ p ∷ [] })
      else none
  deliver i w s = none

  unfoldable pub retire : ℕ → Worker → System → Option System
  retire i leaving s =
      some (report (ev_worker_idle i) (record s { workers = set s.workers i gone }))
  retire i w s = none

  unfoldable pub fetch_result : Writer → List Photo → System → Option System
  fetch_result ready (p ∷ ps) s = some (record s { results = ps; writer = writing p })
  fetch_result v ps s = none

  unfoldable pub store_result : Option String → String → Writer → System → Option System
  store_result none now (writing p) s = some (
      report (ev_item_done p.key_base 0)
        (record s { disk = record s.disk { store = upsert p now s.disk.store }; writer = ready }))
  store_result (some e) now (writing p) s =
      some
        (report (ev_item_failed p.key_base (str_append "store: " e)) (record s { writer = ready }))
  store_result fault now v s = none

  unfoldable pub end_writer : Writer → List Photo → System → Option System
  end_writer ready [] s = if is_joining s.main then none else some (record s { writer = drained })
  end_writer v ps s = none

  unfoldable pub wait_workers : Main → System → Option System
  wait_workers joining s = if all_gone s.workers then some (record s { main = closing }) else none
  wait_workers m s = none

  unfoldable pub wait_writer : Main → Writer → System → Option System
  wait_writer closing drained s = some (record s { main = ending })
  wait_writer m v s = none

  unfoldable pub wait_producer : Main → Producer → System → Option System
  wait_producer ending stopped s = some (
      report (ev_phase (if s.is_cancelled then cancelled else done)) (record s { main = finished }))
  wait_producer m q s = none

  -- The cancel function is dropped when the run has ended.
  unfoldable pub call_cancel : Main → System → Option System
  call_cancel finished s = none
  call_cancel m s = if s.is_cancelled then none else some (record s { is_cancelled = true })

  -- A move of worker i, if there is one.
  abbrev pub of_worker : ℕ → (Worker → System → Option System) → System → Option System
  of_worker i f s = do w ← get_elem? s.workers i; f w s

  unfoldable pub move : Move → System → Option System
  unfolding produce skip_check hand_over give_up receive end_range start_work work deliver retire
      fetch_result store_result end_writer wait_workers wait_writer wait_producer call_cancel
  move cancel s = call_cancel s.main s
  move head s = produce s.todo s.producer s
  move (check fault) s = skip_check fault s.producer s
  move offer s = hand_over s.producer s
  move withdraw s = give_up s.producer s
  move (take_job i) s = of_worker i (λ w t. receive i w t.jobs t) s
  move (quit i) s = of_worker i (λ w t. end_range i w t.jobs t) s
  move (begin i) s = of_worker i (start_work i) s
  move (process i o) s = of_worker i (work i o) s
  move (send i) s = of_worker i (deliver i) s
  move (leave i) s = of_worker i (retire i) s
  move take_result s = fetch_result s.writer s.results s
  move (write fault now) s = store_result fault now s.writer s
  move close_writer s = end_writer s.writer s.results s
  move close_results s = wait_workers s.main s
  move join_writer s = wait_writer s.main s.writer s
  move finish s = wait_producer s.main s.producer s

  -- A schedule.
  unfoldable pub moves : List Move → System → Option System
  unfolding move
  moves [] s = some s
  moves (m ∷ ms) s = do t ← move m s; moves ms t

abbrev pub pool : ℕ → List Worker
pool zero = []
pool (suc n) = waiting ∷ pool n

-- evRemoved is sent when rows were reconciled away.
abbrev pub removed_events : ℕ → List Event
removed_events removed = if ltb 0 removed then ev_removed removed ∷ [] else []

-- The goroutines when they are started on the photos that the limit leaves.
unfoldable pub start_scan : ℕ → List Photo → ℕ → Disk → System
start_scan n photos removed d = record {
  disk = d;
  todo = photos;
  producer = at_head;
  jobs = [];
  workers = pool n;
  results = [];
  writer = ready;
  main = joining;
  is_cancelled = false;
  left_out = [];
  log = removed_events removed ++ ev_total (length photos) ∷ ev_phase running ∷ [];
}

-- What run does before it starts the goroutines: it ends here, with a phase and the fatal error, or
-- goes on.
pub data Opened : Type 0 where
  over : Disk → Phase → Option String → Opened
  under_way : System → Opened

-- `listing` is what LocalSource or S3Source answers, `is_cancelled` the context behind it, `fault`
-- and `stuck` what ReconcileMissing meets.
module _ (thumb_path : String → String) (config : String) (fault : ℕ → Option String)
    (stuck : String → Bool) where
  unfoldable pub reconciled : RunOptions → ℕ → List Photo → Disk × (ℕ ⊎ String) → Opened
  reconciled opts n photos (d, inr e) = over d error (some e)
  reconciled opts n photos (d, inl removed) =
      under_way (start_scan n (limit_photos opts.limit photos) removed d)

  unfoldable pub open_run :
      Bool → (List Photo × List String) ⊎ String → Bool → RunOptions → ℕ → Disk → Opened
  unfolding reconciled
  open_run is_local (inr e) is_cancelled opts n d =
      if is_cancelled then over d cancelled none else over d error (some e)
  open_run is_local (inl (photos, present)) is_cancelled opts n d =
      if is_local
      then under_way (start_scan n (limit_photos opts.limit photos) 0 d)
      else reconciled opts n photos
          (reconcile_missing thumb_path config fault stuck present opts.prefix d)
