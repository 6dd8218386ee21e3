-- ===== src/Scan/Again.antt =====
-- catalog/catalog.go: the run is idempotent; what one run catalogued the next one skips.
use fragments.Base.{
  ℕ, suc, ◌+◌, ◌≤◌, String, Bool, true, false, ◌≡◌, ◌≢◌, refl, sym, ◌∙◌, subst, Option, none, some,
  List, [], ◌∷◌, map, arith, inl, inr, length, All, in_list, str_eq, str_eq_iff, str_eq_refl,
  Option-cases, Bool-cases, Sum-cases,
}
use fragments.Store.Rows.{Photo}
use fragments.Store.Columns.{existing_etags-upsert, existing_etags-upsert_ne}
use fragments.Scan.{
  Disk, Codec, Env, RunStats, listed_raf, is_unchanged, should_skip, process_no_store, process_one,
  run_loop,
}

abbrev pub photo_key : Photo → String
photo_key p = p.key_base

-- Each capture is listed once, with an ETag.
abbrev pub IsListing : List Photo → Type 0
IsListing [] = Unit
IsListing (p ∷ ps) =
    (in_list p.key_base (map photo_key ps) ≡ false) × (p.jpeg.etag ≢ "") × IsListing ps

-- Nothing cancels the run and the database answers.
pub record IsQuiet (env : Env) : Type 0 where
  pub goes_on : (i : ℕ) → env.is_cancelled i ≡ false
  pub check_ok : (i : ℕ) → env.skip_fault i ≡ none

module _ (thumb_path : String → String) where
  -- What was processed without an error needs no work.
  process_one-unchanged :
      (codec : Codec) (fault : Option String) (now : String) (p : Photo) (d : Disk)
      → p.jpeg.etag ≢ ""
      → (process_one thumb_path codec fault now p d).1 ≡ none
      → is_unchanged thumb_path p (process_one thumb_path codec fault now p d).0 ≡ true
  unfolding process_one process_no_store is_unchanged
  process_one-unchanged codec fault now p d tagged h = elim (Sum-cases (codec.fetch p)) [
    | inr (m, e) ↦ absurd (cc (rw (e, process_one) at h))
    | inl (bytes, e) ↦
        (let p' : Photo = record p {
          thumb_path = thumb_path p.key_base;
          meta = codec.extract bytes;
        } in
          ground (
            arith,
            e,
            existing_etags-upsert p' now d.store,
            str_eq_refl p.jpeg.etag,
            str_eq_iff p.jpeg.etag "",
            str_eq_refl (listed_raf p.raf),
            str_eq_refl (thumb_path p.key_base),
          ))
  ]

  -- Work on another capture does not undo that.
  process_one-unchanged_ne :
      (codec : Codec) (fault : Option String) (now : String) (p q : Photo) (d : Disk)
      → str_eq q.key_base p.key_base ≡ false
      → is_unchanged thumb_path q d ≡ true
      → is_unchanged thumb_path q (process_one thumb_path codec fault now p d).0 ≡ true
  unfolding process_one process_no_store is_unchanged
  process_one-unchanged_ne codec fault now p q d other h = elim (Sum-cases (codec.fetch p)) [
    | inr (m, e) ↦ rw (e, process_one) h
    | inl (bytes, e) ↦
        (let p' : Photo = record p {
          thumb_path = thumb_path p.key_base;
          meta = codec.extract bytes;
        } in
          ground (
            arith,
            e,
            existing_etags-upsert_ne p' now q.key_base d.store,
            str_eq_iff p.key_base q.key_base,
            str_eq_iff q.key_base p.key_base,
          ))
  ]

  should_skip-unchanged :
      (fault : Option String) (force : Bool) (p : Photo) (d : Disk)
      → should_skip thumb_path fault force p d ≡ inl true
      → is_unchanged thumb_path p d ≡ true
  unfolding should_skip
  should_skip-unchanged fault true p d h = cc
  should_skip-unchanged (some e) false p d h = cc
  should_skip-unchanged none false p d h = cc

  run_loop-unchanged_ne :
      (codec : Codec) (env : Env) (force : Bool) (i : ℕ) (ps : List Photo) (d : Disk) (s : RunStats)
      (q : Photo)
      → in_list q.key_base (map photo_key ps) ≡ false
      → is_unchanged thumb_path q d ≡ true
      → is_unchanged thumb_path q (run_loop thumb_path codec env force i ps d s).0 ≡ true
  unfolding run_loop
  run_loop-unchanged_ne codec env force i [] d s q out h = h
  run_loop-unchanged_ne codec env force i (p ∷ ps) d s q out h =
      elim (Bool-cases (env.is_cancelled i)) [
        | inl e ↦ rw e h
        | inr e ↦ rw e (elim (Sum-cases (should_skip thumb_path (env.skip_fault i) force p d)) [
          | inr (m, bad) ↦ rw bad h
          | inl (true, skip) ↦
              rw skip (run_loop-unchanged_ne codec env force (suc i) ps d _ q (ground arith) h)
          | inl (false, work) ↦ rw work (
              run_loop-unchanged_ne codec env force (suc i) ps
                (process_one thumb_path codec (env.upsert_fault i) (env.now i) p d).0 _ q
                (ground arith)
                (process_one-unchanged_ne codec (env.upsert_fault i) (env.now i) p q d
                  (ground arith) h))
        ])
      ]

  -- Failures are only added.
  run_loop-failed :
      (codec : Codec) (env : Env) (force : Bool) (i : ℕ) (ps : List Photo) (d : Disk) (s : RunStats)
      → s.failed ≤ (run_loop thumb_path codec env force i ps d s).1.failed
  unfolding run_loop
  run_loop-failed codec env force i [] d s = omega arith
  run_loop-failed codec env force i (p ∷ ps) d s = elim (Bool-cases (env.is_cancelled i)) [
    | inl e ↦ rw e (omega arith)
    | inr e ↦ rw e (elim (Sum-cases (should_skip thumb_path (env.skip_fault i) force p d)) [
      | inr (m, bad) ↦ rw bad (omega arith)
      | inl (true, skip) ↦
          rw skip
            (run_loop-failed codec env force (suc i) ps d (record s { skipped = suc s.skipped }))
      | inl (false, work) ↦
          (let made = process_one thumb_path codec (env.upsert_fault i) (env.now i) p d in
            rw work (elim (Option-cases made.1) [
              | inl fine ↦ rw fine (
                  run_loop-failed codec env force (suc i) ps made.0
                    (record s { processed = suc s.processed }))
              | inr (m, bad) ↦ rw bad (
                  omega (
                    arith,
                    run_loop-failed codec env force (suc i) ps made.0
                        (record s { failed = suc s.failed }),
                  ))
            ]))
    ])
  ]

  abbrev Ready : List Photo → Disk × RunStats × Option String → Type 0
  Ready ps r = r.2 ≡ none → r.1.failed ≡ 0 → All (λ p. is_unchanged thumb_path p r.0 ≡ true) ps

  -- After a loop without an error or a failure every photo of the listing is up to date.
  run_loop-Ready :
      (codec : Codec) (env : Env) (force : Bool) (i : ℕ) (ps : List Photo) (d : Disk) (s : RunStats)
      → IsListing ps
      → Ready ps (run_loop thumb_path codec env force i ps d s)
  unfolding run_loop
  run_loop-Ready codec env force i [] d s l = λ ok clean. tt
  run_loop-Ready codec env force i (p ∷ ps) d s l = elim (Bool-cases (env.is_cancelled i)) [
    | inl e ↦ to (d, s, some "context canceled") (rw e refl) (λ ok clean. absurd (cc ok))
    | inr e ↦ elim (Sum-cases (should_skip thumb_path (env.skip_fault i) force p d)) [
      | inr (m, bad) ↦ to (d, s, some m) (rw (e, bad) refl) (λ ok clean. absurd (cc ok))
      | inl (true, skip) ↦
          (let s' : RunStats = record s { skipped = suc s.skipped } in
            to (run_loop thumb_path codec env force (suc i) ps d s') (rw (e, skip) refl)
              (λ ok clean. (
                run_loop-unchanged_ne codec env force (suc i) ps d s' p l.0
                    (should_skip-unchanged (env.skip_fault i) force p d skip),
                run_loop-Ready codec env force (suc i) ps d s' l.2 ok clean,
              )))
      | inl (false, work) ↦
          (let made = process_one thumb_path codec (env.upsert_fault i) (env.now i) p d in
            elim (Option-cases made.1) [
              | inl fine ↦
                  (let s' : RunStats = record s { processed = suc s.processed } in
                    to (run_loop thumb_path codec env force (suc i) ps made.0 s')
                      (rw (e, work, fine) refl)
                      (λ ok clean. (
                        run_loop-unchanged_ne codec env force (suc i) ps made.0 s' p l.0 (
                            process_one-unchanged codec (env.upsert_fault i) (env.now i) p d l.1
                              fine),
                        run_loop-Ready codec env force (suc i) ps made.0 s' l.2 ok clean,
                      )))
              | inr (m, bad) ↦
                  (let s' : RunStats = record s { failed = suc s.failed } in
                    to (run_loop thumb_path codec env force (suc i) ps made.0 s')
                      (rw (e, work, bad) refl)
                      (λ ok clean. absurd (
                        omega
                          (arith, run_loop-failed codec env force (suc i) ps made.0 s', clean))))
            ])
    ]
  ]
    where
      to :
          (r : Disk × RunStats × Option String)
          → run_loop thumb_path codec env force i (p ∷ ps) d s ≡ r
          → Ready (p ∷ ps) r
          → Ready (p ∷ ps) (run_loop thumb_path codec env force i (p ∷ ps) d s)
      to r e h = subst (Ready (p ∷ ps)) (sym e) h

  run_loop-skips :
      (codec : Codec) (env : Env) (i : ℕ) (ps : List Photo) (d : Disk) (s : RunStats)
      → IsQuiet env
      → All (λ p. is_unchanged thumb_path p d ≡ true) ps
      → run_loop thumb_path codec env false i ps d s
        ≡ (d, record s { skipped = s.skipped + length ps }, none)
  unfolding run_loop should_skip
  run_loop-skips codec env i [] d s q a = ground arith
  run_loop-skips codec env i (p ∷ ps) d s q a =
      rw (q.goes_on i, q.check_ok i, a.0)
        (run_loop-skips codec env (suc i) ps d (record s { skipped = suc s.skipped }) q a.1
          ∙ ground arith)

-- If a run, forced or not, over a listing that shows each capture once and with an ETag ends
-- without an error or a failure, then a second run with no cancellation and no database fault skips
-- every photo and leaves the disk as it is.
pub run_loop-again :
    (thumb_path : String → String) (codec : Codec) (env later : Env) (force : Bool)
    (ps : List Photo) (d : Disk) (s t : RunStats)
    → IsListing ps
    → IsQuiet later
    → (run_loop thumb_path codec env force 0 ps d s).2 ≡ none
    → (run_loop thumb_path codec env force 0 ps d s).1.failed ≡ 0
    → run_loop thumb_path codec later false 0 ps (run_loop thumb_path codec env force 0 ps d s).0 t
      ≡ (
        (run_loop thumb_path codec env force 0 ps d s).0,
        record t { skipped = t.skipped + length ps },
        none,
      )
run_loop-again tp codec env later force ps d s t l q ok clean =
    run_loop-skips tp codec later 0 ps (run_loop tp codec env force 0 ps d s).0 t q
      (run_loop-Ready tp codec env force 0 ps d s l ok clean)
