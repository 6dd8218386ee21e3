-- ===== src/Workers/Sound.antt =====
-- worker/coordinator.go: what holds in every state of the concurrent scan.
use fragments.Base.{
  ℕ, zero, suc, ◌≤◌, ◌≡◌, refl, String, Bool, true, some, List, [], ◌∷◌, tally, tally-set,
  tally-get_elem?, length-set, arith, length, length-append, ◌⊎◌,
}
use fragments.Store.Rows.{Photo}
use fragments.Scan.{Disk}
use fragments.Workers.Leads.{moves-Reach}
use fragments.Workers.Bound.{writer_work, main_work}
use fragments.Workers.{
  Producer, stopped, Worker, waiting, got, working, sending, leaving, gone, all_gone, System,
  populated, Move, moves, pool, start_scan,
}
use fragments.Workers.Leads.{moves-Reach}
use fragments.Workers.Steps.{
  Step, Reach, here, next, step_cancel, step_exhausted, step_stop, step_head, step_check_fails,
  step_skip, step_wanted, step_offer, step_withdraw, step_take, step_range_end, step_break,
  step_begin, step_processed, step_abort, step_failed, step_send, step_leave, step_result,
  step_stored, step_refused, step_drain, step_join, step_written, step_finish,
}

-- The stages as numbers: 1 while the producer runs, while a worker has not returned, when it has left
-- its loop, and while the context is live.
abbrev pub live : Producer → ℕ
live stopped = 0
live q = 1

abbrev pub present : Worker → ℕ
present gone = 0
present w = 1

abbrev pub retiring : Worker → ℕ
retiring leaving = 1
retiring gone = 1
retiring w = 0

-- Without a cancellation nothing is left out, the producer stops behind the last photo, and a worker
-- leaves its loop when the producer has stopped and the jobs are drained. run passes wg.Wait when
-- every worker has returned, the writer stops behind the last result, and run waits for both.
abbrev pub IsSound : ℕ → System → Type 0
IsSound n s =
    (s.is_cancelled ≡ true ⊎ (length s.left_out ≡ 0))
    × (s.is_cancelled ≡ true ⊎ ((live s.producer ≡ 1) ⊎ (length s.todo ≡ 0)))
    × (s.is_cancelled ≡ true
        ⊎ ((tally retiring s.workers ≡ 0) ⊎ ((length s.jobs ≡ 0) × (live s.producer ≡ 0))))
    × ((main_work s.main ≡ 3) ⊎ (tally present s.workers ≡ 0))
    × ((1 ≤ writer_work s.writer) ⊎ ((main_work s.main ≤ 2) × (length s.results ≡ 0)))
    × ((2 ≤ main_work s.main) ⊎ (writer_work s.writer ≡ 0))
    × ((1 ≤ main_work s.main) ⊎ (live s.producer ≡ 0))
    × (length s.workers ≡ n)

all_gone-tally : (ws : List Worker) → all_gone ws ≡ true → tally present ws ≡ 0
all_gone-tally [] h = refl
all_gone-tally (waiting ∷ ws) h = absurd (cc)
all_gone-tally (got p ∷ ws) h = absurd (cc)
all_gone-tally (working p ∷ ws) h = absurd (cc)
all_gone-tally (sending p ∷ ws) h = absurd (cc)
all_gone-tally (leaving ∷ ws) h = absurd (cc)
all_gone-tally (gone ∷ ws) h = omega (arith, all_gone-tally ws h)

module _ (thumb_path : String → String) (n : ℕ) where
  pub Step-IsSound : {s t : System} → Step thumb_path s t → IsSound n s → IsSound n t
  Step-IsSound (step_cancel s h k) o = ground (arith)
  Step-IsSound (step_exhausted s h k) o = ground (arith)
  Step-IsSound (step_stop s h k) o = ground (arith)
  Step-IsSound (step_head s p ps h k) o = ground (arith)
  Step-IsSound (step_check_fails s p e h) o = ground (arith)
  Step-IsSound (step_skip s p h) o = ground (arith)
  Step-IsSound (step_wanted s p h) o = ground (arith)
  Step-IsSound (step_offer s p h) o = ground (arith, length-append s.jobs (p ∷ []))
  Step-IsSound (step_withdraw s p h k) o = ground (arith)
  Step-IsSound (step_take s i p ps h k) o = ground (
    arith,
    tally-set present s.workers i waiting (got p) h,
    tally-set retiring s.workers i waiting (got p) h,
    length-set s.workers i (got p),
  )
  Step-IsSound (step_range_end s i h k l) o = ground (
    arith,
    tally-set present s.workers i waiting leaving h,
    tally-set retiring s.workers i waiting leaving h,
    length-set s.workers i leaving,
  )
  Step-IsSound (step_break s i p h k) o = ground (
    arith,
    tally-set present s.workers i (got p) leaving h,
    tally-set retiring s.workers i (got p) leaving h,
    length-set s.workers i leaving,
  )
  Step-IsSound (step_begin s i p h) o = ground (
    arith,
    tally-set present s.workers i (got p) (working p) h,
    tally-set retiring s.workers i (got p) (working p) h,
    length-set s.workers i (working p),
  )
  Step-IsSound (step_processed s i p m h) o = ground (
    arith,
    tally-set present s.workers i (working p) (sending (populated thumb_path p m)) h,
    tally-set retiring s.workers i (working p) (sending (populated thumb_path p m)) h,
    length-set s.workers i (sending (populated thumb_path p m)),
  )
  Step-IsSound (step_abort s i p h k) o = ground (
    arith,
    tally-set present s.workers i (working p) leaving h,
    tally-set retiring s.workers i (working p) leaving h,
    length-set s.workers i leaving,
  )
  Step-IsSound (step_failed s i p e h) o = ground (
    arith,
    tally-set present s.workers i (working p) waiting h,
    tally-set retiring s.workers i (working p) waiting h,
    length-set s.workers i waiting,
  )
  Step-IsSound (step_send s i p h) o = ground (
    arith,
    length-append s.results (p ∷ []),
    tally-set present s.workers i (sending p) waiting h,
    tally-get_elem? present s.workers i (sending p) h,
    tally-set retiring s.workers i (sending p) waiting h,
    length-set s.workers i waiting,
  )
  Step-IsSound (step_leave s i h) o = ground (
    arith,
    tally-set present s.workers i leaving gone h,
    tally-set retiring s.workers i leaving gone h,
    length-set s.workers i gone,
  )
  Step-IsSound (step_result s p ps h k) o = ground (arith)
  Step-IsSound (step_stored s p now h) o = ground (arith)
  Step-IsSound (step_refused s p e h) o = ground (arith)
  Step-IsSound (step_drain s h k l) o = ground (arith)
  Step-IsSound (step_join s h k) o = ground (arith, all_gone-tally s.workers k)
  Step-IsSound (step_written s h k) o = ground (arith)
  Step-IsSound (step_finish s h k) o = ground (arith)

  Reach-IsSound : {s t : System} → Reach thumb_path s t → IsSound n s → IsSound n t
  Reach-IsSound (here s) o = o
  Reach-IsSound (next st r) o = Reach-IsSound r (Step-IsSound st o)

pool-tallies :
    (n : ℕ) → (length (pool n) ≡ n) × (tally retiring (pool n) ≡ 0) × (tally present (pool n) ≡ n)
pool-tallies zero = (refl, refl, refl)
pool-tallies (suc n) = ground (arith, pool-tallies n)

start_scan-IsSound :
    (n : ℕ) (photos : List Photo) (removed : ℕ) (d : Disk)
    → IsSound n (start_scan n photos removed d)
unfolding start_scan
start_scan-IsSound n photos removed d = ground (arith, pool-tallies n)

pub moves-IsSound :
    (thumb_path : String → String) (force : Bool) (cap n : ℕ) (photos : List Photo) (removed : ℕ)
    (d : Disk) (ms : List Move) (t : System)
    → moves thumb_path force cap ms (start_scan n photos removed d) ≡ some t
    → IsSound n t
moves-IsSound thumb_path force cap n photos removed d ms t h =
    Reach-IsSound thumb_path n
      (moves-Reach thumb_path force cap ms (start_scan n photos removed d) t h)
      (start_scan-IsSound n photos removed d)
