-- ===== src/Jobs.antt =====
-- worker/coordinator.go and worker/purge.go: the one job at a time, how its snapshot begins and how
-- it ends. The goroutine of a job is its list of events.
pub mod Slots
pub mod Purges
use fragments.Base.{
  ℕ, zero, suc, String, Bool, true, false, not, Option, none, some, List, [], ◌∷◌, map, ℤ, pos,
  negsuc, if◌then◌else◌, ltb, length,
}
use fragments.Store.Discard.{DiscardedPhoto}
use fragments.Status.{
  Phase, idle, listing, purging, WorkerStatus, Snapshot, Arithmetic, Event, ev_phase, apply_event,
}

abbrev pub fallback_workers : ℕ
fallback_workers = 2

abbrev pub max_workers : ℕ
max_workers = 32

pub record Coordinator (F : Type 0) : Type 0 where
  pub snap : Snapshot F
  pub is_running : Bool
  pub def_workers : ℕ

-- A size that is not positive stands for the default.
unfoldable pub positive_or : ℤ → ℕ → ℕ
positive_or (negsuc n) d = d
positive_or (pos zero) d = d
positive_or (pos (suc n)) d = suc n

unfoldable pub pool_size : ℤ → ℕ → ℕ
unfolding positive_or
pool_size requested d =
    let n = positive_or requested d in if ltb max_workers n then max_workers else n

-- The slots i, i + 1, … of a new pool.
unfoldable pub slots : ℕ → ℕ → List WorkerStatus
slots i zero = []
slots i (suc n) =
    record { id = i; busy = false; key_base = ""; last_key_base = "" } ∷ slots (suc i) n

unfoldable pub clear_slot : WorkerStatus → WorkerStatus
clear_slot w = record w { busy = false; key_base = "" }

module _ {F : Type 0} (ops : Arithmetic F) where
  -- A snapshot with zero counters.
  unfoldable pub blank : Bool → Phase → ℕ → Option ℕ → List WorkerStatus → ℕ → Snapshot F
  blank active phase total started workers d = record {
    active = active;
    phase = phase;
    total = total;
    processed = 0;
    skipped = 0;
    failed = 0;
    bytes_freed = 0;
    removed = 0;
    started_at = started;
    elapsed_sec = ops.zero_f;
    rate = ops.zero_f;
    eta_sec = ops.zero_f;
    workers = workers;
    last_error = "";
    errors = [];
    default_workers = d;
  }

  unfoldable pub new_coordinator : ℤ → Coordinator F
  unfolding positive_or blank
  new_coordinator requested =
      let d = positive_or requested fallback_workers in
      record { snap = blank false idle 0 none [] d; is_running = false; def_workers = d }

  -- Start: `false` is ErrRunActive.
  unfoldable pub start : ℤ → ℕ → Coordinator F → Coordinator F × Bool
  unfolding pool_size slots blank
  start requested now c = if c.is_running then (c, false) else (
    record c {
      snap =
          blank true listing 0 (some now) (slots 0 (pool_size requested c.def_workers))
            c.def_workers;
      is_running = true;
    },
    true,
  )

  -- What StartPurge installs when its checks pass.
  unfoldable pub begin_purge : List DiscardedPhoto → ℕ → Coordinator F → Coordinator F
  unfolding blank
  begin_purge photos now c = record c {
    snap = blank true purging (length photos) (some now) [] c.def_workers;
    is_running = true;
  }

  abbrev pub set_error : Option String → Snapshot F → Snapshot F
  set_error none s = s
  set_error (some e) s = record s { last_error = e }

  -- finish: the last phase, and the end of the job; `elapsed` is the clock at the phase event.
  unfoldable pub finish : F → Phase → Option String → Coordinator F → Coordinator F
  unfolding clear_slot
  finish elapsed phase fatal c =
      let s = (apply_event ops elapsed (ev_phase phase) (set_error fatal c.snap)).0 in
      record c {
        snap = record s { active = false; workers = map clear_slot s.workers };
        is_running = false;
      }
