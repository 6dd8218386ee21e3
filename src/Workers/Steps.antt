-- ===== src/Workers/Steps.antt =====
-- worker/coordinator.go: the moves of the concurrent scan as a step relation, one constructor for
-- each way a goroutine goes on, with the condition under which it does.
use fragments.Base.{
  ℕ, ◌≡◌, ◌≢◌, String, true, false, some, List, [], ◌∷◌, ◌++◌, get_elem?, set, if◌then◌else◌,
}
use fragments.Store.Rows.{Photo, Metadata, upsert}
use fragments.Status.{
  ev_phase, ev_worker_start, ev_worker_idle, ev_item_done, ev_item_failed, ev_skip, cancelled, done,
}
use fragments.Workers.{
  at_head, checking, offering, stopped, waiting, got, working, sending, leaving, gone, ready,
  writing, drained, joining, closing, ending, finished, System, report, populated, all_gone,
}

module _ (thumb_path : String → String) where
  pub data Step : System → System → Type 0 where
    step_cancel :
        (s : System)
        → s.main ≢ finished
        → s.is_cancelled ≡ false
        → Step s (record s { is_cancelled = true })
    step_exhausted :
        (s : System) → s.producer ≡ at_head → s.todo ≡ [] → Step s (record s { producer = stopped })
    step_stop :
        (s : System)
        → s.producer ≡ at_head
        → s.is_cancelled ≡ true
        → Step s (record s { producer = stopped })
    step_head :
        (s : System) (p : Photo) (ps : List Photo)
        → s.producer ≡ at_head
        → s.todo ≡ p ∷ ps
        → Step s (record s { todo = ps; producer = checking p })
    step_check_fails :
        (s : System) (p : Photo) (e : String)
        → s.producer ≡ checking p
        → Step s (report (ev_item_failed p.key_base e) (record s { producer = at_head }))
    step_skip :
        (s : System) (p : Photo)
        → s.producer ≡ checking p
        → Step s (report (ev_skip p.key_base) (record s { producer = at_head }))
    step_wanted :
        (s : System) (p : Photo)
        → s.producer ≡ checking p
        → Step s (record s { producer = offering p })
    step_offer :
        (s : System) (p : Photo)
        → s.producer ≡ offering p
        → Step s (record s { producer = at_head; jobs = s.jobs ++ p ∷ [] })
    step_withdraw :
        (s : System) (p : Photo)
        → s.producer ≡ offering p
        → s.is_cancelled ≡ true
        → Step s (record s { producer = stopped; left_out = p ∷ s.left_out })
    step_take :
        (s : System) (i : ℕ) (p : Photo) (ps : List Photo)
        → get_elem? s.workers i ≡ some waiting
        → s.jobs ≡ p ∷ ps
        → Step s (record s { jobs = ps; workers = set s.workers i (got p) })
    step_range_end :
        (s : System) (i : ℕ)
        → get_elem? s.workers i ≡ some waiting
        → s.jobs ≡ []
        → s.producer ≡ stopped
        → Step s (record s { workers = set s.workers i leaving })
    step_break :
        (s : System) (i : ℕ) (p : Photo)
        → get_elem? s.workers i ≡ some (got p)
        → s.is_cancelled ≡ true
        → Step s (record s { workers = set s.workers i leaving; left_out = p ∷ s.left_out })
    step_begin :
        (s : System) (i : ℕ) (p : Photo)
        → get_elem? s.workers i ≡ some (got p)
        → Step s (
            report
              (ev_worker_start i p.key_base)
              (record s { workers = set s.workers i (working p) }))
    step_processed :
        (s : System) (i : ℕ) (p : Photo) (m : Metadata)
        → get_elem? s.workers i ≡ some (working p)
        → Step s (record s {
          disk = record s.disk { thumbs = thumb_path p.key_base ∷ s.disk.thumbs };
          workers = set s.workers i (sending (populated thumb_path p m));
        })
    step_abort :
        (s : System) (i : ℕ) (p : Photo)
        → get_elem? s.workers i ≡ some (working p)
        → s.is_cancelled ≡ true
        → Step s (record s { workers = set s.workers i leaving; left_out = p ∷ s.left_out })
    step_failed :
        (s : System) (i : ℕ) (p : Photo) (e : String)
        → get_elem? s.workers i ≡ some (working p)
        → Step s
            (report (ev_item_failed p.key_base e) (record s { workers = set s.workers i waiting }))
    step_send :
        (s : System) (i : ℕ) (p : Photo)
        → get_elem? s.workers i ≡ some (sending p)
        → Step s (record s { workers = set s.workers i waiting; results = s.results ++ p ∷ [] })
    step_leave :
        (s : System) (i : ℕ)
        → get_elem? s.workers i ≡ some leaving
        → Step s (report (ev_worker_idle i) (record s { workers = set s.workers i gone }))
    step_result :
        (s : System) (p : Photo) (ps : List Photo)
        → s.writer ≡ ready
        → s.results ≡ p ∷ ps
        → Step s (record s { results = ps; writer = writing p })
    step_stored :
        (s : System) (p : Photo) (now : String)
        → s.writer ≡ writing p
        → Step s (
            report (ev_item_done p.key_base 0) (record s {
              disk = record s.disk { store = upsert p now s.disk.store };
              writer = ready;
            }))
    step_refused :
        (s : System) (p : Photo) (e : String)
        → s.writer ≡ writing p
        → Step s (report (ev_item_failed p.key_base e) (record s { writer = ready }))
    step_drain :
        (s : System)
        → s.writer ≡ ready
        → s.results ≡ []
        → s.main ≢ joining
        → Step s (record s { writer = drained })
    step_join :
        (s : System)
        → s.main ≡ joining
        → all_gone s.workers ≡ true
        → Step s (record s { main = closing })
    step_written :
        (s : System) → s.main ≡ closing → s.writer ≡ drained → Step s (record s { main = ending })
    step_finish :
        (s : System)
        → s.main ≡ ending
        → s.producer ≡ stopped
        → Step s (
            report
              (ev_phase (if s.is_cancelled then cancelled else done))
              (record s { main = finished }))

  -- Reachable states.
  pub data Reach : System → System → Type 0 where
    here : (s : System) → Reach s s
    next : {s t u : System} → Step s t → Reach t u → Reach s u
