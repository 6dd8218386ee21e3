-- ===== src/Workers/Leads.antt =====
-- worker/coordinator.go: every enabled move of the concurrent scan is a step of the relation.
use fragments.Base.{
  ℕ, ◌≡◌, refl, subst, String, Bool, true, false, Option, none, some, List, [], ◌∷◌, ◌++◌, ◌⊎◌, inl,
  inr, get_elem?, set, ltb, length, ◌>>=◌, str_append, if◌then◌else◌,
}
use fragments.Store.Rows.{Photo, Metadata}
use fragments.Status.{ev_worker_start, ev_item_failed}
use fragments.Scan.{should_skip}
use fragments.Workers.Steps.{
  Step, Reach, here, next, step_cancel, step_exhausted, step_stop, step_head, step_check_fails,
  step_skip, step_wanted, step_offer, step_withdraw, step_take, step_range_end, step_break,
  step_begin, step_processed, step_abort, step_failed, step_send, step_leave, step_result,
  step_stored, step_refused, step_drain, step_join, step_written, step_finish,
}
use fragments.Workers.{
  Producer, at_head, checking, offering, stopped, Worker, waiting, got, working, sending, leaving,
  gone, Writer, ready, writing, drained, Main, joining, closing, ending, finished, System, Move,
  cancel, head, check, offer, withdraw, take_job, quit, begin, process, send, leave, take_result,
  write, close_writer, close_results, join_writer, finish, report, produce, checked, skip_check,
  hand_over, give_up, is_stopped, receive, end_range, start_work, work, deliver, retire,
  fetch_result, store_result, is_joining, end_writer, all_gone, wait_workers, wait_writer,
  wait_producer, call_cancel, move, moves,
}

module _ (thumb_path : String → String) (force : Bool) (cap : ℕ) where
  -- What an enabled move leads to is a step.
  abbrev Leads : System → Option System → Type 0
  Leads s none = Unit
  Leads s (some t) = Step thumb_path s t

  Leads-if :
      (s : System) (b : Bool) (o u : Option System)
      → (b ≡ true → Leads s o)
      → (b ≡ false → Leads s u)
      → Leads s (if b then o else u)
  Leads-if s true o u h k = h refl
  Leads-if s false o u h k = k refl

  produce-Leads :
      (ps : List Photo) (q : Producer) (s : System)
      → s.todo ≡ ps
      → s.producer ≡ q
      → Leads s (produce thumb_path force cap ps q s)
  unfolding produce
  produce-Leads [] at_head s e f = step_exhausted s f e
  produce-Leads (p ∷ ps) at_head s e f =
      Leads-if s s.is_cancelled (some (record s { producer = stopped }))
        (some (record s { todo = ps; producer = checking p })) (step_stop s f)
        (λ k. step_head s p ps f e)
  produce-Leads [] (checking p) s e f = tt
  produce-Leads [] (offering p) s e f = tt
  produce-Leads [] stopped s e f = tt
  produce-Leads (x ∷ xs) (checking p) s e f = tt
  produce-Leads (x ∷ xs) (offering p) s e f = tt
  produce-Leads (x ∷ xs) stopped s e f = tt

  checked-Step :
      (r : Bool ⊎ String) (p : Photo) (s : System)
      → s.producer ≡ checking p
      → Step thumb_path s (checked thumb_path force cap r p s)
  unfolding checked
  checked-Step (inr e) p s f = step_check_fails s p (str_append "skip-check: " e) f
  checked-Step (inl true) p s f = step_skip s p f
  checked-Step (inl false) p s f = step_wanted s p f

  skip_check-Leads :
      (fault : Option String) (q : Producer) (s : System)
      → s.producer ≡ q
      → Leads s (skip_check thumb_path force cap fault q s)
  unfolding skip_check
  skip_check-Leads fault (checking p) s f =
      checked-Step (should_skip thumb_path fault force p s.disk) p s f
  skip_check-Leads fault at_head s f = tt
  skip_check-Leads fault (offering p) s f = tt
  skip_check-Leads fault stopped s f = tt

  hand_over-Leads :
      (q : Producer) (s : System) → s.producer ≡ q → Leads s (hand_over thumb_path force cap q s)
  unfolding hand_over
  hand_over-Leads (offering p) s f =
      Leads-if s (ltb (length s.jobs) cap)
        (some (record s { producer = at_head; jobs = s.jobs ++ p ∷ [] })) none
        (λ k. step_offer s p f) (λ k. tt)
  hand_over-Leads at_head s f = tt
  hand_over-Leads (checking p) s f = tt
  hand_over-Leads stopped s f = tt

  give_up-Leads :
      (q : Producer) (s : System) → s.producer ≡ q → Leads s (give_up thumb_path force cap q s)
  unfolding give_up
  give_up-Leads (offering p) s f =
      Leads-if s s.is_cancelled (some (record s { producer = stopped; left_out = p ∷ s.left_out }))
        none (step_withdraw s p f) (λ k. tt)
  give_up-Leads at_head s f = tt
  give_up-Leads (checking p) s f = tt
  give_up-Leads stopped s f = tt

  stopped-cases : (q : Producer) → is_stopped q ≡ true → q ≡ stopped
  stopped-cases at_head h = absurd (cc)
  stopped-cases (checking p) h = absurd (cc)
  stopped-cases (offering p) h = absurd (cc)
  stopped-cases stopped h = refl

  receive-Leads :
      (i : ℕ) (w : Worker) (ps : List Photo) (s : System)
      → get_elem? s.workers i ≡ some w
      → s.jobs ≡ ps
      → Leads s (receive thumb_path force cap i w ps s)
  unfolding receive
  receive-Leads i waiting (x ∷ xs) s e f = step_take s i x xs e f
  receive-Leads i waiting [] s e f = tt
  receive-Leads i (got p) ps s e f = tt
  receive-Leads i (working p) ps s e f = tt
  receive-Leads i (sending p) ps s e f = tt
  receive-Leads i leaving ps s e f = tt
  receive-Leads i gone ps s e f = tt

  end_range-Leads :
      (i : ℕ) (w : Worker) (ps : List Photo) (s : System)
      → get_elem? s.workers i ≡ some w
      → s.jobs ≡ ps
      → Leads s (end_range thumb_path force cap i w ps s)
  unfolding end_range
  end_range-Leads i waiting [] s e f =
      Leads-if s (is_stopped s.producer) (some (record s { workers = set s.workers i leaving }))
        none (λ k. step_range_end s i e f (stopped-cases s.producer k)) (λ k. tt)
  end_range-Leads i waiting (x ∷ xs) s e f = tt
  end_range-Leads i (got p) ps s e f =
      Leads-if s s.is_cancelled
        (some (record s { workers = set s.workers i leaving; left_out = p ∷ s.left_out })) none
        (step_break s i p e) (λ k. tt)
  end_range-Leads i (working p) ps s e f = tt
  end_range-Leads i (sending p) ps s e f = tt
  end_range-Leads i leaving ps s e f = tt
  end_range-Leads i gone ps s e f = tt

  start_work-Leads :
      (i : ℕ) (w : Worker) (s : System)
      → get_elem? s.workers i ≡ some w
      → Leads s (start_work thumb_path force cap i w s)
  unfolding start_work
  start_work-Leads i (got p) s e =
      Leads-if s s.is_cancelled none
        (some (
          report (ev_worker_start i p.key_base)
            (record s { workers = set s.workers i (working p) })))
        (λ k. tt) (λ k. step_begin s i p e)
  start_work-Leads i waiting s e = tt
  start_work-Leads i (working p) s e = tt
  start_work-Leads i (sending p) s e = tt
  start_work-Leads i leaving s e = tt
  start_work-Leads i gone s e = tt

  work-Leads :
      (i : ℕ) (o : Metadata ⊎ String) (w : Worker) (s : System)
      → get_elem? s.workers i ≡ some w
      → Leads s (work thumb_path force cap i o w s)
  unfolding work
  work-Leads i (inl m) (working p) s e = step_processed s i p m e
  work-Leads i (inr f) (working p) s e =
      Leads-if s s.is_cancelled
        (some (record s { workers = set s.workers i leaving; left_out = p ∷ s.left_out }))
        (some
          (report (ev_item_failed p.key_base f) (record s { workers = set s.workers i waiting })))
        (step_abort s i p e) (λ k. step_failed s i p f e)
  work-Leads i (inl m) waiting s e = tt
  work-Leads i (inl m) (got p) s e = tt
  work-Leads i (inl m) (sending p) s e = tt
  work-Leads i (inl m) leaving s e = tt
  work-Leads i (inl m) gone s e = tt
  work-Leads i (inr f) waiting s e = tt
  work-Leads i (inr f) (got p) s e = tt
  work-Leads i (inr f) (sending p) s e = tt
  work-Leads i (inr f) leaving s e = tt
  work-Leads i (inr f) gone s e = tt

  deliver-Leads :
      (i : ℕ) (w : Worker) (s : System)
      → get_elem? s.workers i ≡ some w
      → Leads s (deliver thumb_path force cap i w s)
  unfolding deliver
  deliver-Leads i (sending p) s e =
      Leads-if s (ltb (length s.results) cap)
        (some (record s { workers = set s.workers i waiting; results = s.results ++ p ∷ [] })) none
        (λ k. step_send s i p e) (λ k. tt)
  deliver-Leads i waiting s e = tt
  deliver-Leads i (got p) s e = tt
  deliver-Leads i (working p) s e = tt
  deliver-Leads i leaving s e = tt
  deliver-Leads i gone s e = tt

  retire-Leads :
      (i : ℕ) (w : Worker) (s : System)
      → get_elem? s.workers i ≡ some w
      → Leads s (retire thumb_path force cap i w s)
  unfolding retire
  retire-Leads i leaving s e = step_leave s i e
  retire-Leads i waiting s e = tt
  retire-Leads i (got p) s e = tt
  retire-Leads i (working p) s e = tt
  retire-Leads i (sending p) s e = tt
  retire-Leads i gone s e = tt

  fetch_result-Leads :
      (v : Writer) (ps : List Photo) (s : System)
      → s.writer ≡ v
      → s.results ≡ ps
      → Leads s (fetch_result thumb_path force cap v ps s)
  unfolding fetch_result
  fetch_result-Leads ready (x ∷ xs) s e f = step_result s x xs e f
  fetch_result-Leads ready [] s e f = tt
  fetch_result-Leads (writing p) ps s e f = tt
  fetch_result-Leads drained ps s e f = tt

  store_result-Leads :
      (fault : Option String) (now : String) (v : Writer) (s : System)
      → s.writer ≡ v
      → Leads s (store_result thumb_path force cap fault now v s)
  unfolding store_result
  store_result-Leads none now (writing p) s e = step_stored s p now e
  store_result-Leads (some f) now (writing p) s e = step_refused s p (str_append "store: " f) e
  store_result-Leads none now ready s e = tt
  store_result-Leads none now drained s e = tt
  store_result-Leads (some f) now ready s e = tt
  store_result-Leads (some f) now drained s e = tt

  end_writer-Leads :
      (v : Writer) (ps : List Photo) (s : System)
      → s.writer ≡ v
      → s.results ≡ ps
      → Leads s (end_writer thumb_path force cap v ps s)
  unfolding end_writer
  end_writer-Leads ready [] s e f =
      Leads-if s (is_joining s.main) none (some (record s { writer = drained })) (λ k. tt)
        (λ k. step_drain s e f (λ j. cc (rw j at k)))
  end_writer-Leads ready (x ∷ xs) s e f = tt
  end_writer-Leads (writing p) ps s e f = tt
  end_writer-Leads drained ps s e f = tt

  wait_workers-Leads :
      (m : Main) (s : System) → s.main ≡ m → Leads s (wait_workers thumb_path force cap m s)
  unfolding wait_workers
  wait_workers-Leads joining s e =
      Leads-if s (all_gone s.workers) (some (record s { main = closing })) none (step_join s e)
        (λ k. tt)
  wait_workers-Leads closing s e = tt
  wait_workers-Leads ending s e = tt
  wait_workers-Leads finished s e = tt

  wait_writer-Leads :
      (m : Main) (v : Writer) (s : System)
      → s.main ≡ m
      → s.writer ≡ v
      → Leads s (wait_writer thumb_path force cap m v s)
  unfolding wait_writer
  wait_writer-Leads closing drained s e f = step_written s e f
  wait_writer-Leads closing ready s e f = tt
  wait_writer-Leads closing (writing p) s e f = tt
  wait_writer-Leads joining v s e f = tt
  wait_writer-Leads ending v s e f = tt
  wait_writer-Leads finished v s e f = tt

  wait_producer-Leads :
      (m : Main) (q : Producer) (s : System)
      → s.main ≡ m
      → s.producer ≡ q
      → Leads s (wait_producer thumb_path force cap m q s)
  unfolding wait_producer
  wait_producer-Leads ending stopped s e f = step_finish s e f
  wait_producer-Leads ending at_head s e f = tt
  wait_producer-Leads ending (checking p) s e f = tt
  wait_producer-Leads ending (offering p) s e f = tt
  wait_producer-Leads joining q s e f = tt
  wait_producer-Leads closing q s e f = tt
  wait_producer-Leads finished q s e f = tt

  call_cancel-Leads :
      (m : Main) (s : System) → s.main ≡ m → Leads s (call_cancel thumb_path force cap m s)
  unfolding call_cancel
  call_cancel-Leads finished s e = tt
  call_cancel-Leads joining s e =
      Leads-if s s.is_cancelled none (some (record s { is_cancelled = true })) (λ k. tt)
        (step_cancel s (λ j. cc (j, e)))
  call_cancel-Leads closing s e =
      Leads-if s s.is_cancelled none (some (record s { is_cancelled = true })) (λ k. tt)
        (step_cancel s (λ j. cc (j, e)))
  call_cancel-Leads ending s e =
      Leads-if s s.is_cancelled none (some (record s { is_cancelled = true })) (λ k. tt)
        (step_cancel s (λ j. cc (j, e)))

  of_worker-Leads :
      (i : ℕ) (o : Option Worker) (f : Worker → System → Option System) (s : System)
      → ((w : Worker) → o ≡ some w → Leads s (f w s))
      → Leads s (o >>= λ w. f w s)
  of_worker-Leads i none f s h = tt
  of_worker-Leads i (some w) f s h = h w refl

  move-Leads : (m : Move) (s : System) → Leads s (move thumb_path force cap m s)
  unfolding move
  move-Leads cancel s = call_cancel-Leads s.main s refl
  move-Leads head s = produce-Leads s.todo s.producer s refl refl
  move-Leads (check fault) s = skip_check-Leads fault s.producer s refl
  move-Leads offer s = hand_over-Leads s.producer s refl
  move-Leads withdraw s = give_up-Leads s.producer s refl
  move-Leads (take_job i) s =
      of_worker-Leads i (get_elem? s.workers i) (λ w t. receive thumb_path force cap i w t.jobs t) s
        (λ w e. receive-Leads i w s.jobs s e refl)
  move-Leads (quit i) s =
      of_worker-Leads i (get_elem? s.workers i) (λ w t. end_range thumb_path force cap i w t.jobs t)
        s (λ w e. end_range-Leads i w s.jobs s e refl)
  move-Leads (begin i) s =
      of_worker-Leads i (get_elem? s.workers i) (start_work thumb_path force cap i) s
        (λ w e. start_work-Leads i w s e)
  move-Leads (process i o) s =
      of_worker-Leads i (get_elem? s.workers i) (work thumb_path force cap i o) s
        (λ w e. work-Leads i o w s e)
  move-Leads (send i) s =
      of_worker-Leads i (get_elem? s.workers i) (deliver thumb_path force cap i) s
        (λ w e. deliver-Leads i w s e)
  move-Leads (leave i) s =
      of_worker-Leads i (get_elem? s.workers i) (retire thumb_path force cap i) s
        (λ w e. retire-Leads i w s e)
  move-Leads take_result s = fetch_result-Leads s.writer s.results s refl refl
  move-Leads (write fault now) s = store_result-Leads fault now s.writer s refl
  move-Leads close_writer s = end_writer-Leads s.writer s.results s refl refl
  move-Leads close_results s = wait_workers-Leads s.main s refl
  move-Leads join_writer s = wait_writer-Leads s.main s.writer s refl refl
  move-Leads finish s = wait_producer-Leads s.main s.producer s refl refl

  pub move-Step :
      (m : Move) (s t : System) → move thumb_path force cap m s ≡ some t → Step thumb_path s t
  move-Step m s t h = subst (Leads s) h (move-Leads m s)

  bind-Reach :
      (ms : List Move) (o : Option System) (s u : System)
      → Leads s o
      → ((t : System) → moves thumb_path force cap ms t ≡ some u → Reach thumb_path t u)
      → (o >>= λ t. moves thumb_path force cap ms t) ≡ some u
      → Reach thumb_path s u
  bind-Reach ms none s u l f h = absurd (cc)
  bind-Reach ms (some t) s u l f h = next l (f t h)

  -- What a schedule leads to is reachable.
  pub moves-Reach :
      (ms : List Move) (s u : System)
      → moves thumb_path force cap ms s ≡ some u
      → Reach thumb_path s u
  unfolding moves
  moves-Reach [] s u h = subst (Reach thumb_path s) (cc (h)) (here s)
  moves-Reach (m ∷ ms) s u h =
      bind-Reach ms (move thumb_path force cap m s) s u (move-Leads m s)
        (λ t k. moves-Reach ms t u k) h
