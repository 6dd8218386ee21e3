-- ===== src/Workers/Settled.antt =====
-- worker/coordinator.go: a concurrent scan that ends without a cancellation has settled every photo.
use fragments.Base.{
  ℕ, ◌<◌, ◌≡◌, refl, String, Bool, false, some, List, [], ◌∷◌, tally, arith, length,
}
use fragments.Store.Rows.{Photo}
use fragments.Scan.{Disk}
use fragments.Workers.Balance.{
  outcome, of_photo, of_producer, carried, of_writer, balance, moves-balance,
}
use fragments.Workers.Bound.{writer_work}
use fragments.Workers.Sound.{live, present, retiring, IsSound, moves-IsSound}
use fragments.Workers.{
  Producer, at_head, checking, offering, stopped, Worker, waiting, got, working, sending, leaving,
  gone, Writer, ready, writing, drained, finished, System, Move, moves, start_scan,
}

tally-empty : (f : Photo → ℕ) (ps : List Photo) → length ps ≡ 0 → tally f ps ≡ 0
tally-empty f [] h = refl
tally-empty f (p ∷ ps) h = absurd (omega arith)

-- When every worker has returned they carry nothing and have all left their loops.
pub present-carried :
    (w : String → ℕ) (ws : List Worker)
    → tally present ws ≡ 0
    → (tally (carried w) ws ≡ 0) × (tally retiring ws ≡ length ws)
present-carried w [] h = (refl, refl)
present-carried w (waiting ∷ ws) h = absurd (omega arith)
present-carried w (got p ∷ ws) h = absurd (omega arith)
present-carried w (working p ∷ ws) h = absurd (omega arith)
present-carried w (sending p ∷ ws) h = absurd (omega arith)
present-carried w (leaving ∷ ws) h = absurd (omega arith)
present-carried w (gone ∷ ws) h =
    let tail : tally present ws ≡ 0 = omega arith in ground (arith, present-carried w ws tail)

live-of_producer : (w : String → ℕ) (q : Producer) → live q ≡ 0 → of_producer w q ≡ 0
live-of_producer w at_head h = absurd (omega arith)
live-of_producer w (checking p) h = absurd (omega arith)
live-of_producer w (offering p) h = absurd (omega arith)
live-of_producer w stopped h = refl

drained-of_writer : (w : String → ℕ) (v : Writer) → writer_work v ≡ 0 → of_writer w v ≡ 0
drained-of_writer w ready h = absurd (omega arith)
drained-of_writer w (writing p) h = absurd (omega arith)
drained-of_writer w drained h = refl

module _ (n : ℕ) (s : System) (sound : IsSound n s) (some_worker : 0 < n)
    (over : s.main ≡ finished) where
  over-idle :
      (tally present s.workers ≡ 0)
      × (live s.producer ≡ 0)
      × (writer_work s.writer ≡ 0)
      × (length s.results ≡ 0)
  over-idle = ground (arith)

  over-drained :
      (w : String → ℕ)
      → s.is_cancelled ≡ false
      → (length s.todo ≡ 0) × (length s.jobs ≡ 0) × (length s.left_out ≡ 0)
  over-drained w e = ground (arith, over-idle, present-carried w s.workers over-idle.0)

  over-balance : (w : String → ℕ) → s.is_cancelled ≡ false → balance w s ≡ tally (outcome w) s.log
  over-balance w e =
      let o = over-idle in
      let d = over-drained w e in
      omega (
        arith,
        tally-empty (of_photo w) s.todo d.0,
        live-of_producer w s.producer o.1,
        tally-empty (of_photo w) s.jobs d.1,
        (present-carried w s.workers o.0).0,
        tally-empty (of_photo w) s.results o.3,
        drained-of_writer w s.writer o.2,
        tally-empty (of_photo w) s.left_out d.2,
      )

-- When a scan with a worker at least ends and nobody cancelled it, the weight of the outcome events
-- (processed, failed or skipped) of its log is the weight of the photos it started on, whatever
-- weight keys have: each photo is settled as often as it was listed, under every schedule.
pub moves-settle :
    (w : String → ℕ) (thumb_path : String → String) (force : Bool) (cap n : ℕ) (photos : List Photo)
    (removed : ℕ) (d : Disk) (ms : List Move) (t : System)
    → moves thumb_path force cap ms (start_scan n photos removed d) ≡ some t
    → 0 < n
    → t.main ≡ finished
    → t.is_cancelled ≡ false
    → tally (outcome w) t.log ≡ tally (of_photo w) photos
moves-settle w thumb_path force cap n photos removed d ms t h k over e =
    let sound = moves-IsSound thumb_path force cap n photos removed d ms t h in
    omega (
      arith,
      over-balance n t sound k over w e,
      moves-balance w thumb_path force cap n photos removed d ms t h,
    )
