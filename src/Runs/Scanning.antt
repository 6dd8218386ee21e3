-- ===== src/Runs/Scanning.antt =====
-- worker/coordinator.go on a listing of one capture, with one worker.
use fragments.Base.{
  ◌*◌, ◌+◌, ◌≤◌, true, false, ◌≡◌, refl, arith, Option, none, some, List, [], ◌∷◌, inl, pos, tally,
}
use fragments.Store.Rows.{Photo}
use fragments.Scan.{Disk, RunOptions, limit_photos, should_skip}
use fragments.Workers.{
  System, Move, head, check, offer, take_job, quit, begin, process, send, leave, take_result, write,
  close_writer, close_results, join_writer, finish, finished, cancel, moves, start_scan, open_run,
  checked,
}
use fragments.Workers.Balance.{balance, outcome, moves-balance}
use fragments.Workers.Bound.{moves-end}
use fragments.Workers.Settled.{moves-settle}
use fragments.Workers.Progress.{moves-completes}
use fragments.Workers.Counts.{scan-counts}
use fragments.Status.Counts.{finished as counted}
use fragments.Status.{apply_events}
use fragments.Jobs.{new_coordinator}
use fragments.Runs.Data.{whole_seconds, meta, photo, two_photos, thumb_file}

abbrev listing : List Photo
listing = photo "c" "e1" ∷ []

abbrev disk : Disk
disk = record { store = two_photos; thumbs = [] }

abbrev begun : List Move
begun = head ∷ check none ∷ offer ∷ take_job 0 ∷ cancel ∷ []

abbrev whole_scan : List Move
whole_scan =
    head
    ∷ check none
    ∷ offer
    ∷ take_job 0
    ∷ begin 0
    ∷ process 0 (inl meta)
    ∷ send 0
    ∷ take_result
    ∷ write none "now"
    ∷ head
    ∷ quit 0
    ∷ leave 0
    ∷ close_results
    ∷ close_writer
    ∷ join_writer
    ∷ finish
    ∷ []

-- Where a schedule leads from the start.
abbrev led : Option System → System
led (some t) = t
led none = start_scan 1 listing 0 disk

unfoldable pub scanned : List Move → System
scanned ms = led (moves thumb_file true 2 ms (start_scan 1 listing 0 disk))

moves-settle_example : tally (outcome (λ k. 1)) (scanned whole_scan).log ≡ 1
unfolding scanned moves start_scan should_skip checked
moves-settle_example =
    moves-settle (λ k. 1) thumb_file true 2 1 listing 0 disk whole_scan (scanned whole_scan) refl
      (omega arith) refl refl

moves-balance_example : balance (λ k. 1) (scanned begun) ≡ 1
unfolding scanned moves start_scan should_skip checked
moves-balance_example =
    moves-balance (λ k. 1) thumb_file true 2 1 listing 0 disk begun (scanned begun) refl

moves-end_example : 16 ≤ 10 * 1 + 2 * 1 + 6
unfolding scanned moves start_scan should_skip checked
moves-end_example =
    moves-end thumb_file true 2 1 listing 0 disk whole_scan (scanned whole_scan) refl

moves-completes_example :
    (more : List Move) × (t : System) × (moves thumb_file true 2 more (scanned begun) ≡ some t)
    × (t.main ≡ finished)
unfolding scanned moves start_scan should_skip checked
moves-completes_example =
    moves-completes thumb_file true 2 1 listing 0 disk begun (scanned begun) (omega arith)
      (omega arith) refl

abbrev forced : RunOptions
forced = record { limit = pos 5; force = true; prefix = "" }

scan-counts_example :
    counted (
      apply_events whole_seconds
        (λ i. i)
        0
        (scanned whole_scan).log
        (new_coordinator whole_seconds (pos 1)).snap)
    ≡ 1
unfolding scanned moves start_scan should_skip checked open_run limit_photos new_coordinator
scan-counts_example =
    scan-counts whole_seconds (λ i. i) 0 (new_coordinator whole_seconds (pos 1)).snap thumb_file ""
      (λ i. none) (λ f. false) forced 2 1 listing true [] false disk whole_scan
      (start_scan 1 listing 0 disk) (scanned whole_scan) refl refl (omega arith) refl refl
