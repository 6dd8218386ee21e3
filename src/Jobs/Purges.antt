-- ===== src/Jobs/Purges.antt =====
-- worker/purge.go: the counters of a purge from its confirmation to its end.
use fragments.Base.{
  ℕ, String, Bool, true, false, ◌≡◌, refl, ◌∙◌, Option, none, some, List, arith, length, ◌==◌,
  Bool-cases, inl, inr,
}
use fragments.Store.Rows.{Store}
use fragments.Store.Discard.{DiscardedPhoto, list_discarded}
use fragments.Status.{Arithmetic, done, apply_events}
use fragments.Status.Counts.{finished}
use fragments.Bucket.Delete.{Client}
use fragments.Purge.{World, Env, begun, start_purge, purge}
use fragments.Purge.Account.{purge-finishes}
use fragments.Jobs.{Coordinator, begin_purge, blank}

begun-length :
    (running : Bool) (fault : Option String) (expected : ℕ) (s : Store) (ps : List DiscardedPhoto)
    → start_purge running fault expected s ≡ begun ps
    → length ps ≡ expected
unfolding start_purge
begun-length true fault expected s ps h = absurd (cc h)
begun-length false (some e) expected s ps h = absurd (cc h)
begun-length false none expected s ps h =
    elim (Bool-cases (length (list_discarded s) == expected)) [
      | inl e ↦ ground (arith, e, rw (start_purge, e) at h)
      | inr e ↦ absurd (cc (rw (start_purge, e) at h))
    ]

-- A purge that StartPurge lets begin and that ends as done counts as many photos, erased, skipped or
-- failed, as the client confirmed.
pub purge-confirmed :
    {R F : Type 0} (c : Client R) (thumb_path : String → String) (ops : Arithmetic F)
    (clock : ℕ → F) (env : ℕ → Env) (at_end : Bool) (ps : List DiscardedPhoto) (w : World R)
    (co : Coordinator F) (now expected : ℕ)
    → start_purge co.is_running none expected w.store ≡ begun ps
    → (purge c thumb_path none env at_end ps w).2 ≡ done
    → finished (
        apply_events ops clock 0
          (purge c thumb_path none env at_end ps w).1
          (begin_purge ops ps now co).snap)
      ≡ expected
unfolding begin_purge blank
purge-confirmed c thumb_path ops clock env at_end ps w co now expected h d =
    purge-finishes c thumb_path ops clock env at_end ps w (begin_purge ops ps now co).snap refl refl
      d
    ∙ begun-length co.is_running none expected w.store ps h
