-- ===== src/Workers/Bound.antt =====
-- worker/coordinator.go: the concurrent scan ends. Every move takes some of a measure, so that no
-- schedule is longer than the measure of its start.
use fragments.Base.{
  ℕ, zero, suc, ◌+◌, ◌*◌, ◌<◌, ◌≤◌, ◌≡◌, refl, String, Bool, Option, none, some, List, [], ◌∷◌,
  tally, tally-set, arith, length, length-append, ◌>>=◌, subst, if◌then◌else◌,
}
use fragments.Store.Rows.{Photo}
use fragments.Scan.{Disk}
use fragments.Workers.Leads.{move-Step}
use fragments.Workers.{
  Producer, at_head, checking, offering, stopped, Worker, waiting, got, working, sending, leaving,
  gone, Writer, ready, writing, drained, Main, joining, closing, ending, finished, System,
  populated, Move, move, moves, pool, start_scan,
}
use fragments.Workers.Steps.{
  Step, step_cancel, step_exhausted, step_stop, step_head, step_check_fails, step_skip, step_wanted,
  step_offer, step_withdraw, step_take, step_range_end, step_break, step_begin, step_processed,
  step_abort, step_failed, step_send, step_leave, step_result, step_stored, step_refused,
  step_drain, step_join, step_written, step_finish,
}

-- What a photo still has to go through, from where it is.
abbrev producer_work : Producer → ℕ
producer_work at_head = 1
producer_work (checking p) = 10
producer_work (offering p) = 9
producer_work stopped = 0

abbrev worker_work : Worker → ℕ
worker_work waiting = 2
worker_work (got p) = 8
worker_work (working p) = 7
worker_work (sending p) = 6
worker_work leaving = 1
worker_work gone = 0

abbrev pub writer_work : Writer → ℕ
writer_work ready = 1
writer_work (writing p) = 3
writer_work drained = 0

abbrev pub main_work : Main → ℕ
main_work joining = 3
main_work closing = 2
main_work ending = 1
main_work finished = 0

abbrev pub measure : System → ℕ
measure s =
    10 * length s.todo
    + producer_work s.producer
    + 7 * length s.jobs
    + tally worker_work s.workers
    + 3 * length s.results
    + writer_work s.writer
    + main_work s.main
    + (if s.is_cancelled then 0 else 1)

module _ (thumb_path : String → String) where
  pub Step-measure : {s t : System} → Step thumb_path s t → measure t < measure s
  Step-measure (step_cancel s h k) = ground (arith)
  Step-measure (step_exhausted s h k) = ground (arith)
  Step-measure (step_stop s h k) = ground (arith)
  Step-measure (step_head s p ps h k) = ground (arith)
  Step-measure (step_check_fails s p e h) = ground (arith)
  Step-measure (step_skip s p h) = ground (arith)
  Step-measure (step_wanted s p h) = ground (arith)
  Step-measure (step_offer s p h) = ground (arith, length-append s.jobs (p ∷ []))
  Step-measure (step_withdraw s p h k) = ground (arith)
  Step-measure (step_take s i p ps h k) =
      ground (arith, tally-set worker_work s.workers i waiting (got p) h)
  Step-measure (step_range_end s i h k l) =
      ground (arith, tally-set worker_work s.workers i waiting leaving h)
  Step-measure (step_break s i p h k) =
      ground (arith, tally-set worker_work s.workers i (got p) leaving h)
  Step-measure (step_begin s i p h) =
      ground (arith, tally-set worker_work s.workers i (got p) (working p) h)
  Step-measure (step_processed s i p m h) =
      ground (
        arith,
        tally-set worker_work s.workers i (working p) (sending (populated thumb_path p m)) h,
      )
  Step-measure (step_abort s i p h k) =
      ground (arith, tally-set worker_work s.workers i (working p) leaving h)
  Step-measure (step_failed s i p e h) =
      ground (arith, tally-set worker_work s.workers i (working p) waiting h)
  Step-measure (step_send s i p h) = ground (
    arith,
    length-append s.results (p ∷ []),
    tally-set worker_work s.workers i (sending p) waiting h,
  )
  Step-measure (step_leave s i h) = ground (arith, tally-set worker_work s.workers i leaving gone h)
  Step-measure (step_result s p ps h k) = ground (arith)
  Step-measure (step_stored s p now h) = ground (arith)
  Step-measure (step_refused s p e h) = ground (arith)
  Step-measure (step_drain s h k l) = ground (arith)
  Step-measure (step_join s h k) = ground (arith)
  Step-measure (step_written s h k) = ground (arith)
  Step-measure (step_finish s h k) = ground (arith)

  module _ (force : Bool) (cap : ℕ) where
    bind-length :
        (ms : List Move) (o : Option System) (s u : System)
        → ((t : System) → o ≡ some t → measure t < measure s)
        → ((t : System)
            → moves thumb_path force cap ms t ≡ some u
            → length ms + measure u ≤ measure t)
        → (o >>= λ t. moves thumb_path force cap ms t) ≡ some u
        → suc (length ms) + measure u ≤ measure s
    bind-length ms none s u l f h = absurd (cc)
    bind-length ms (some t) s u l f h = omega (arith, l t refl, f t h)

    moves-measure :
        (ms : List Move) (s u : System)
        → moves thumb_path force cap ms s ≡ some u
        → length ms + measure u ≤ measure s
    unfolding moves
    moves-measure [] s u h =
        let e : s ≡ u = cc (h) in subst (λ t. 0 + measure t ≤ measure s) e (omega arith)
    moves-measure (m ∷ ms) s u h =
        bind-length ms (move thumb_path force cap m s) s u
          (λ t k. Step-measure (move-Step thumb_path force cap m s t k))
          (λ t k. moves-measure ms t u k) h

tally-pool_work : (n : ℕ) → tally worker_work (pool n) ≡ 2 * n
tally-pool_work zero = omega arith
tally-pool_work (suc n) = omega (arith, tally-pool_work n)

start_scan-measure :
    (n : ℕ) (photos : List Photo) (removed : ℕ) (d : Disk)
    → measure (start_scan n photos removed d) ≡ 10 * length photos + 2 * n + 6
unfolding start_scan
start_scan-measure n photos removed d = omega (arith, tally-pool_work n)

-- The concurrent scan ends: no schedule of n workers on a list of photos, whatever the database, the
-- photos and the channels' room do to it and whenever it is cancelled, has more moves than ten for
-- each photo, two for each worker and six.
pub moves-end :
    (thumb_path : String → String) (force : Bool) (cap n : ℕ) (photos : List Photo) (removed : ℕ)
    (d : Disk) (ms : List Move) (t : System)
    → moves thumb_path force cap ms (start_scan n photos removed d) ≡ some t
    → length ms ≤ 10 * length photos + 2 * n + 6
moves-end thumb_path force cap n photos removed d ms t h = omega (
  arith,
  moves-measure thumb_path force cap ms (start_scan n photos removed d) t h,
  start_scan-measure n photos removed d,
)
