-- ===== src/Status.antt =====
-- worker/status.go and the status half of worker/coordinator.go: the snapshot, the events of a run,
-- applyEvent and recomputeLocked. The type of float64 values and its operations are parameters.
pub mod Counts
use Prim.Native.String.{◌++◌ as str_append}
use fragments.Base.{
  ℕ, zero, suc, ◌+◌, ◌-◌, String, Bool, true, false, ◌&&◌, Option, none, some, List, [], ◌∷◌, ◌++◌,
  ltb, str_eq, is_some, if◌then◌else◌, length, drop,
}

pub data Phase : Type 0 where
  idle listing running purging done cancelled error : Phase

pub record WorkerStatus : Type 0 where
  pub id : ℕ
  pub busy : Bool
  pub key_base : String
  pub last_key_base : String

pub record ItemError : Type 0 where
  pub key_base : String
  pub err : String

-- The arithmetic of float64 that the rate and the estimate use.
pub record Arithmetic (F : Type 0) : Type 0 where
  pub zero_f : F
  pub of_count : ℕ → F
  pub div : F → F → F
  pub is_positive : F → Bool

pub record Snapshot (F : Type 0) : Type 0 where
  pub active : Bool
  pub phase : Phase
  pub total : ℕ
  pub processed : ℕ
  pub skipped : ℕ
  pub failed : ℕ
  pub bytes_freed : ℕ
  pub removed : ℕ
  pub started_at : Option ℕ
  pub elapsed_sec : F
  pub rate : F
  pub eta_sec : F
  pub workers : List WorkerStatus
  pub last_error : String
  pub errors : List ItemError
  pub default_workers : ℕ

pub data Event : Type 0 where
  ev_phase : Phase → Event
  ev_total : ℕ → Event
  ev_worker_start : ℕ → String → Event
  ev_worker_idle : ℕ → Event
  ev_item_done : String → ℕ → Event
  ev_item_failed : String → String → Event
  ev_skip : String → Event
  ev_removed : ℕ → Event

abbrev pub max_errors_kept : ℕ
max_errors_kept = 50

abbrev pub keep_last : WorkerStatus → String
keep_last w = if str_eq w.key_base "" then w.last_key_base else w.key_base

-- The item before is handed off when the next one starts.
unfoldable pub start_item : String → WorkerStatus → WorkerStatus
start_item k w = record w { last_key_base = keep_last w; busy = true; key_base = k }

unfoldable pub go_idle : WorkerStatus → WorkerStatus
go_idle w = record w { last_key_base = keep_last w; busy = false; key_base = "" }

-- if id < len(ws) { ws[id] = f(ws[id]) }
unfoldable pub at_worker : ℕ → (WorkerStatus → WorkerStatus) → List WorkerStatus → List WorkerStatus
at_worker i f [] = []
at_worker zero f (w ∷ ws) = f w ∷ ws
at_worker (suc i) f (w ∷ ws) = w ∷ at_worker i f ws

-- The newest `max_errors_kept`.
unfoldable pub cap_errors : List ItemError → List ItemError
cap_errors es =
    if ltb max_errors_kept (length es) then drop (length es - max_errors_kept) es else es

unfoldable pub is_phase : Event → Bool
is_phase (ev_phase _) = true
is_phase _ = false

-- `elapsed` is time.Since(StartedAt) in seconds when the call is made.
module _ {F : Type 0} (ops : Arithmetic F) where
  unfoldable pub recompute : F → Snapshot F → Snapshot F
  recompute elapsed s =
      let finished = s.processed + s.skipped + s.failed in
      let rate =
        if ops.is_positive elapsed then ops.div (ops.of_count finished) elapsed else s.rate in
      let eta =
        if ops.is_positive rate && ltb finished s.total
        then ops.div (ops.of_count (s.total - finished)) rate
        else ops.zero_f in
      if is_some s.started_at
      then record s { elapsed_sec = elapsed; rate = rate; eta_sec = eta }
      else s

  unfoldable pub count_event : Event → Snapshot F → Snapshot F
  unfolding at_worker cap_errors
  count_event (ev_phase p) s = record s { phase = p }
  count_event (ev_total n) s = record s { total = n }
  count_event (ev_worker_start i k) s = record s { workers = at_worker i (start_item k) s.workers }
  count_event (ev_worker_idle i) s = record s { workers = at_worker i go_idle s.workers }
  count_event (ev_item_done k bytes) s = record s {
    processed = suc s.processed;
    bytes_freed = s.bytes_freed + bytes;
  }
  count_event (ev_item_failed k e) s = record s {
    failed = suc s.failed;
    last_error = str_append k (str_append ": " e);
    errors = cap_errors (s.errors ++ record { key_base = k; err = e } ∷ []);
  }
  count_event (ev_skip k) s = record s { skipped = suc s.skipped }
  count_event (ev_removed n) s = record s { removed = n }

  -- The new snapshot, and whether it is a phase change.
  unfoldable pub apply_event : F → Event → Snapshot F → Snapshot F × Bool
  unfolding recompute count_event is_phase
  apply_event elapsed e s = (recompute elapsed (count_event e s), is_phase e)

  -- statusLoop over a run's events; `clock i` is the time elapsed when event i is applied.
  unfoldable pub apply_events : (ℕ → F) → ℕ → List Event → Snapshot F → Snapshot F
  unfolding apply_event
  apply_events clock i [] s = s
  apply_events clock i (e ∷ es) s = apply_events clock (suc i) es (apply_event (clock i) e s).0
