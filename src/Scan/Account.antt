-- ===== src/Scan/Account.antt =====
-- catalog/catalog.go: the counters of a run.
use fragments.Base.{
  ℕ, suc, ◌+◌, ◌≤◌, String, Bool, true, false, ◌≡◌, refl, Option, none, List, [], ◌∷◌, arith, inl,
  inr, length, length-take, ℤ, pos, negsuc, Option-cases, Bool-cases, Sum-cases,
}
use fragments.Store.Rows.{Photo}
use fragments.Scan.{
  Disk, Codec, Env, RunOptions, RunStats, limit_photos, should_skip, process_one, run_loop, run,
}

abbrev pub handled : RunStats → ℕ
handled s = s.processed + s.skipped + s.failed

-- Of n photos left a loop handles n if it ends without an error, and n at most otherwise.
abbrev Handles : ℕ → RunStats → Disk × RunStats × Option String → Type 0
Handles n s r =
    (r.1.total ≡ s.total)
    × (handled r.1 ≤ handled s + n)
    × (r.2 ≡ none → handled r.1 ≡ handled s + n)

module _ (thumb_path : String → String) (codec : Codec) (env : Env) (force : Bool) where
  run_loop-Handles :
      (i : ℕ) (ps : List Photo) (d : Disk) (s : RunStats)
      → Handles (length ps) s (run_loop thumb_path codec env force i ps d s)
  unfolding run_loop
  run_loop-Handles i [] d s = (refl, omega arith, λ _. omega arith)
  run_loop-Handles i (p ∷ ps) d s = elim (Bool-cases (env.is_cancelled i)) [
    | inl e ↦ rw e (refl, omega arith, λ h. absurd (cc h))
    | inr e ↦ rw e (elim (Sum-cases (should_skip thumb_path (env.skip_fault i) force p d)) [
      | inr (m, bad) ↦ rw bad (refl, omega arith, λ h. absurd (cc h))
      | inl (true, skip) ↦ rw skip (
          let (a, b, c) = run_loop-Handles (suc i) ps d (record s { skipped = suc s.skipped }) in
          (a, omega arith, λ h. omega (arith, c h)))
      | inl (false, work) ↦
          (let made = process_one thumb_path codec (env.upsert_fault i) (env.now i) p d in
            rw work (elim (Option-cases made.1) [
              | inl fine ↦ rw fine (
                  let (a, b, c) =
                    run_loop-Handles (suc i) ps made.0 (record s { processed = suc s.processed }) in
                  (a, omega arith, λ h. omega (arith, c h)))
              | inr (m, bad) ↦ rw bad (
                  let (a, b, c) =
                    run_loop-Handles (suc i) ps made.0 (record s { failed = suc s.failed }) in
                  (a, omega arith, λ h. omega (arith, c h)))
            ]))
    ])
  ]

length-limit_photos : (n : ℤ) (ps : List Photo) → length (limit_photos n ps) ≤ length ps
unfolding limit_photos
length-limit_photos (negsuc n) ps = omega arith
length-limit_photos (pos n) ps = ground (arith, length-take n ps)

limit_photos-le : (m : ℕ) (ps : List Photo) → length (limit_photos (pos (suc m)) ps) ≤ suc m
unfolding limit_photos
limit_photos-le m ps = ground (arith, length-take (suc m) ps)

-- The counters of a run never pass its total, which never passes the number of listed photos.
pub run-bounded :
    (thumb_path : String → String) (codec : Codec) (env : Env) (opts : RunOptions)
    (photos : List Photo) (d : Disk)
    → let stats = (run thumb_path codec env opts photos d).1 in
      (handled stats ≤ stats.total) × (stats.total ≤ length photos)
unfolding run
run-bounded tp codec env opts photos d =
    let ps = limit_photos opts.limit photos in
    let s0 : RunStats = record {
      total = length ps;
      processed = 0;
      skipped = 0;
      failed = 0;
      removed = 0;
    } in
    let (same, most, all) = run_loop-Handles tp codec env opts.force 0 ps d s0 in
    (omega arith, omega (arith, same, length-limit_photos opts.limit photos))

-- A positive limit bounds the photos that a run handles.
pub run-limited :
    (thumb_path : String → String) (codec : Codec) (env : Env) (opts : RunOptions)
    (photos : List Photo) (d : Disk) (m : ℕ)
    → opts.limit ≡ pos (suc m)
    → handled (run thumb_path codec env opts photos d).1 ≤ suc m
unfolding run
run-limited tp codec env opts photos d m e =
    let ps = limit_photos opts.limit photos in
    let s0 : RunStats = record {
      total = length ps;
      processed = 0;
      skipped = 0;
      failed = 0;
      removed = 0;
    } in
    let (same, most, all) = run_loop-Handles tp codec env opts.force 0 ps d s0 in
    let few : length ps ≤ suc m = rw e (limit_photos-le m photos) in omega (arith, most, few)

-- A run that no error ends early counts every photo that the limit leaves as processed, skipped or
-- failed.
pub run-accounts :
    (thumb_path : String → String) (codec : Codec) (env : Env) (opts : RunOptions)
    (photos : List Photo) (d : Disk)
    → (run thumb_path codec env opts photos d).2 ≡ none
    → handled (run thumb_path codec env opts photos d).1 ≡ length (limit_photos opts.limit photos)
unfolding run
run-accounts tp codec env opts photos d e =
    let ps = limit_photos opts.limit photos in
    let s0 : RunStats = record {
      total = length ps;
      processed = 0;
      skipped = 0;
      failed = 0;
      removed = 0;
    } in
    let (same, most, all) = run_loop-Handles tp codec env opts.force 0 ps d s0 in
    omega (arith, all e)
