-- ===== src/Workers/Balance.antt =====
-- worker/coordinator.go: no photo is lost. A weight on keys, summed over the outcome events and over
-- every place that holds a photo, is the same in every state of a run.
use fragments.Base.{
  ℕ, zero, suc, ◌+◌, ◌≡◌, refl, ◌∙◌, String, Bool, some, List, [], ◌∷◌, if◌then◌else◌, tally,
  tally-append, tally-set, arith,
}
use fragments.Store.Rows.{Photo}
use fragments.Status.{
  Event, ev_phase, ev_worker_start, ev_worker_idle, ev_item_done, ev_item_failed, ev_skip,
  cancelled, done,
}
use fragments.Scan.{Disk}
use fragments.Workers.{
  Producer, checking, offering, Worker, waiting, got, working, sending, leaving, gone, Writer,
  writing, System, populated, Move, moves, pool, start_scan,
}
use fragments.Workers.Leads.{moves-Reach}
use fragments.Workers.Steps.{
  Step, Reach, here, next, step_cancel, step_exhausted, step_stop, step_head, step_check_fails,
  step_skip, step_wanted, step_offer, step_withdraw, step_take, step_range_end, step_break,
  step_begin, step_processed, step_abort, step_failed, step_send, step_leave, step_result,
  step_stored, step_refused, step_drain, step_join, step_written, step_finish,
}

module _ (w : String → ℕ) where
  -- The weight of an event that settles a photo.
  abbrev pub outcome : Event → ℕ
  outcome (ev_item_done k d) = w k
  outcome (ev_item_failed k e) = w k
  outcome (ev_skip k) = w k
  outcome e = 0

  abbrev pub of_photo : Photo → ℕ
  of_photo p = w p.key_base

  abbrev pub of_producer : Producer → ℕ
  of_producer (checking p) = w p.key_base
  of_producer (offering p) = w p.key_base
  of_producer q = 0

  abbrev pub carried : Worker → ℕ
  carried (got p) = w p.key_base
  carried (working p) = w p.key_base
  carried (sending p) = w p.key_base
  carried v = 0

  abbrev pub of_writer : Writer → ℕ
  of_writer (writing p) = w p.key_base
  of_writer v = 0

  -- What is settled, what is waiting and what was left out.
  abbrev pub balance : System → ℕ
  balance s =
      tally outcome s.log
      + tally of_photo s.todo
      + of_producer s.producer
      + tally of_photo s.jobs
      + tally carried s.workers
      + tally of_photo s.results
      + of_writer s.writer
      + tally of_photo s.left_out

  module _ (thumb_path : String → String) where
    Step-balance : {s t : System} → Step thumb_path s t → balance t ≡ balance s
    Step-balance (step_cancel s h k) = ground (arith)
    Step-balance (step_exhausted s h k) = ground (arith)
    Step-balance (step_stop s h k) = ground (arith)
    Step-balance (step_head s p ps h k) = ground (arith)
    Step-balance (step_check_fails s p e h) =
        ground (arith, tally-append outcome s.log ((ev_item_failed p.key_base e) ∷ []))
    Step-balance (step_skip s p h) =
        ground (arith, tally-append outcome s.log ((ev_skip p.key_base) ∷ []))
    Step-balance (step_wanted s p h) = ground (arith)
    Step-balance (step_offer s p h) = ground (arith, tally-append of_photo s.jobs (p ∷ []))
    Step-balance (step_withdraw s p h k) = ground (arith)
    Step-balance (step_take s i p ps h k) =
        ground (arith, tally-set carried s.workers i waiting (got p) h)
    Step-balance (step_range_end s i h k l) =
        ground (arith, tally-set carried s.workers i waiting leaving h)
    Step-balance (step_break s i p h k) =
        ground (arith, tally-set carried s.workers i (got p) leaving h)
    Step-balance (step_begin s i p h) = ground (
      arith,
      tally-append outcome s.log ((ev_worker_start i p.key_base) ∷ []),
      tally-set carried s.workers i (got p) (working p) h,
    )
    Step-balance (step_processed s i p m h) =
        ground
          (arith, tally-set carried s.workers i (working p) (sending (populated thumb_path p m)) h)
    Step-balance (step_abort s i p h k) =
        ground (arith, tally-set carried s.workers i (working p) leaving h)
    Step-balance (step_failed s i p e h) = ground (
      arith,
      tally-append outcome s.log ((ev_item_failed p.key_base e) ∷ []),
      tally-set carried s.workers i (working p) waiting h,
    )
    Step-balance (step_send s i p h) = ground (
      arith,
      tally-append of_photo s.results (p ∷ []),
      tally-set carried s.workers i (sending p) waiting h,
    )
    Step-balance (step_leave s i h) = ground (
      arith,
      tally-append outcome s.log ((ev_worker_idle i) ∷ []),
      tally-set carried s.workers i leaving gone h,
    )
    Step-balance (step_result s p ps h k) = ground (arith)
    Step-balance (step_stored s p now h) =
        ground (arith, tally-append outcome s.log ((ev_item_done p.key_base 0) ∷ []))
    Step-balance (step_refused s p e h) =
        ground (arith, tally-append outcome s.log ((ev_item_failed p.key_base e) ∷ []))
    Step-balance (step_drain s h k l) = ground (arith)
    Step-balance (step_join s h k) = ground (arith)
    Step-balance (step_written s h k) = ground (arith)
    Step-balance (step_finish s h k) = ground (
      arith,
      tally-append outcome s.log ((ev_phase (if s.is_cancelled then cancelled else done)) ∷ []),
    )

    Reach-balance : {s t : System} → Reach thumb_path s t → balance t ≡ balance s
    Reach-balance (here s) = refl
    Reach-balance (next st r) = Reach-balance r ∙ Step-balance st

  tally-pool : (n : ℕ) → tally carried (pool n) ≡ 0
  tally-pool zero = omega arith
  tally-pool (suc n) = omega (arith, tally-pool n)

  start_scan-balance :
      (n : ℕ) (photos : List Photo) (removed : ℕ) (d : Disk)
      → balance (start_scan n photos removed d) ≡ tally of_photo photos
  unfolding start_scan
  start_scan-balance n photos removed d = ground (arith, tally-pool n)

  -- Whatever weight keys have, and whatever the schedule, the weight of the outcome events of the log
  -- and of the photos the producer, the channels, the workers and the writer hold, and of those left
  -- out at a cancellation, is the weight of the photos the scan started on.
  pub moves-balance :
      (thumb_path : String → String) (force : Bool) (cap n : ℕ) (photos : List Photo) (removed : ℕ)
      (d : Disk) (ms : List Move) (t : System)
      → moves thumb_path force cap ms (start_scan n photos removed d) ≡ some t
      → balance t ≡ tally of_photo photos
  moves-balance thumb_path force cap n photos removed d ms t h =
      Reach-balance thumb_path
        (moves-Reach thumb_path force cap ms (start_scan n photos removed d) t h)
      ∙ start_scan-balance n photos removed d
