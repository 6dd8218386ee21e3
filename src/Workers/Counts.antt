-- ===== src/Workers/Counts.antt =====
-- worker/coordinator.go: what the status of a concurrent scan counts, from run's listing to its end.
use fragments.Base.{
  ℕ, ◌+◌, ◌<◌, ◌≡◌, refl, String, Bool, true, false, Option, some, List, [], ◌∷◌, tally, arith,
  length, ◌⊎◌, inl, inr, subst,
}
use fragments.Store.Rows.{Photo}
use fragments.Scan.{Disk, RunOptions, limit_photos, reconcile_missing}
use fragments.Status.{
  Event, ev_phase, ev_total, ev_worker_start, ev_worker_idle, ev_item_done, ev_item_failed, ev_skip,
  ev_removed, Snapshot, Arithmetic, apply_events,
}
use fragments.Status.Counts.{outcomes, finished as counted, finished-apply_events}
use fragments.Workers.Balance.{outcome, of_photo}
use fragments.Workers.Settled.{moves-settle}
use fragments.Workers.{finished, System, Move, moves, start_scan, under_way, reconciled, open_run}

-- Each outcome weighs one.
outcome-one : (es : List Event) → outcomes es ≡ tally (outcome (λ k. 1)) es
outcome-one [] = refl
outcome-one (ev_phase x ∷ es) = omega (arith, outcome-one es)
outcome-one (ev_total x ∷ es) = omega (arith, outcome-one es)
outcome-one (ev_worker_start i k ∷ es) = omega (arith, outcome-one es)
outcome-one (ev_worker_idle i ∷ es) = omega (arith, outcome-one es)
outcome-one (ev_item_done k d ∷ es) = omega (arith, outcome-one es)
outcome-one (ev_item_failed k e ∷ es) = omega (arith, outcome-one es)
outcome-one (ev_skip k ∷ es) = omega (arith, outcome-one es)
outcome-one (ev_removed n ∷ es) = omega (arith, outcome-one es)

photos-one : (ps : List Photo) → tally (of_photo (λ k. 1)) ps ≡ length ps
photos-one [] = refl
photos-one (p ∷ ps) = omega (arith, photos-one ps)

module _ (thumb_path : String → String) (config : String) (fault : ℕ → Option String)
    (stuck : String → Bool) (opts : RunOptions) (n : ℕ) (photos : List Photo) where
  -- What run starts the goroutines on.
  abbrev IsStart : System → Type 0
  IsStart s =
      (removed : ℕ) × (d : Disk) × (s ≡ start_scan n (limit_photos opts.limit photos) removed d)

  reconciled-IsStart :
      (r : Disk × (ℕ ⊎ String)) (s : System)
      → reconciled thumb_path config fault stuck opts n photos r ≡ under_way s
      → IsStart s
  unfolding reconciled
  reconciled-IsStart (d, inl removed) s h = (removed, d, cc (h))
  reconciled-IsStart (d, inr e) s h = absurd (cc)

  open_run-IsStart :
      (is_local : Bool) (present : List String) (is_cancelled : Bool) (d : Disk) (s : System)
      → open_run thumb_path config fault stuck is_local
          (inl (photos, present))
          is_cancelled
          opts
          n
          d
        ≡ under_way s
      → IsStart s
  unfolding open_run
  open_run-IsStart true present is_cancelled d s h = (0, d, cc (h))
  open_run-IsStart false present is_cancelled d s h =
      reconciled-IsStart (reconcile_missing thumb_path config fault stuck present opts.prefix d) s h

-- A scan whose listing answered and whose reconciliation went through, that ends without a
-- cancellation and has a worker at least: the status then counts, as processed, skipped or failed,
-- exactly as many photos more than before as the limit leaves of the listing.
pub scan-counts :
    {F : Type 0} (ops : Arithmetic F) (clock : ℕ → F) (i : ℕ) (snap : Snapshot F)
    (thumb_path : String → String) (config : String) (fault : ℕ → Option String)
    (stuck : String → Bool) (opts : RunOptions) (cap n : ℕ) (photos : List Photo) (is_local : Bool)
    (present : List String) (is_cancelled : Bool) (d : Disk) (ms : List Move) (s t : System)
    → open_run thumb_path config fault stuck is_local (inl (photos, present)) is_cancelled opts n d
      ≡ under_way s
    → moves thumb_path opts.force cap ms s ≡ some t
    → 0 < n
    → t.main ≡ finished
    → t.is_cancelled ≡ false
    → counted (apply_events ops clock i t.log snap)
      ≡ counted snap + length (limit_photos opts.limit photos)
scan-counts ops clock i snap thumb_path config fault stuck opts cap n photos is_local present
      is_cancelled d ms s t o h k over e =
    let start =
      open_run-IsStart thumb_path config fault stuck opts n photos is_local present is_cancelled d s
        o in
    let ps = limit_photos opts.limit photos in
    let run_from = subst (λ u. moves thumb_path opts.force cap ms u ≡ some t) (start.2) h in
    omega (
      arith,
      finished-apply_events ops clock i t.log snap,
      outcome-one t.log,
      photos-one ps,
      moves-settle (λ k. 1) thumb_path opts.force cap n ps (start.0) (start.1) ms t run_from k over
          e,
    )
