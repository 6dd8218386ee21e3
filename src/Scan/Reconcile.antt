-- ===== src/Scan/Reconcile.antt =====
-- catalog/catalog.go: which rows ReconcileMissing removes.
use text.Mathlib.Text.{starts_with}
use fragments.Base.{
  ℕ, String, Bool, true, false, not, ◌&&◌, ◌≡◌, refl, sym, ap, Option, List, [], ◌∷◌, map, arith,
  inl, inr, str_eq_iff, if◌then◌else◌, keep, any, in_list, length, ◌==◌, Option-cases, Bool-cases,
}
use fragments.Store.Rows.{Row, Store, rows_of}
use fragments.Store.Discard.{KeyRef, key_ref, is_local, bucket_key_refs, delete_photos}
use fragments.Store.Discard.Removal.{delete_photos-removes}
use fragments.Scan.{Disk, is_gone, effective_prefix, reconcile_missing}

-- A row of the bucket, in the listing's scope, whose key base the listing does not show.
abbrev pub is_stale : List String → String → Row → Bool
is_stale present prefix r =
    not (is_local r) && starts_with r.jpeg.key prefix && not (in_list r.key_base present)

in_list-gone :
    (k : String) (present : List String) (prefix : String) (rows : List Row)
    → in_list k (
        map
          (λ r. r.key_base)
          (keep (is_gone present prefix) (map key_ref (keep (λ r. not (is_local r)) rows))))
      ≡ any (is_stale present prefix) (rows_of k rows)
unfolding key_ref
in_list-gone k present prefix [] = refl
in_list-gone k present prefix (r ∷ rs) = elim (Bool-cases (is_local r)) [
  | inl e ↦ rw e (ground (arith, in_list-gone k present prefix rs))
  | inr e ↦ rw e (
      ground
        (arith, str_eq_iff r.key_base k, str_eq_iff k r.key_base, in_list-gone k present prefix rs))
]

abbrev pub no_keys : List String → Bool
no_keys [] = true
no_keys (k ∷ ks) = false

empty-length : {A : Type 0} (xs : List A) → (length xs == 0) ≡ true → xs ≡ []
empty-length [] h = refl
empty-length (x ∷ xs) h = ground arith

-- If the database answers, a reconciliation with a listing that shows something removes the rows of
-- exactly the keys with a stale row: one from the bucket, under the prefix, that is not listed.
-- An empty listing removes nothing.
pub reconcile_missing-rows :
    (thumb_path : String → String) (config : String) (fault : ℕ → Option String)
    (stuck : String → Bool) (present : List String) (prefix : String) (d : Disk) (k : String)
    {n : ℕ}
    → (reconcile_missing thumb_path config fault stuck present prefix d).1 ≡ inl n
    → rows_of k (reconcile_missing thumb_path config fault stuck present prefix d).0.store.photos
      ≡ (if not (no_keys present)
            && any (is_stale present (effective_prefix config prefix)) (rows_of k d.store.photos)
          then []
          else rows_of k d.store.photos)
unfolding reconcile_missing
reconcile_missing-rows tp config fault stuck [] prefix d k h = refl
reconcile_missing-rows tp config fault stuck (b ∷ bs) prefix d k h =
    elim (Bool-cases (length gone == 0)) [
      | inl e ↦
          rw (e, sym stale) (rw (ap (map (λ (r : KeyRef). r.key_base)) (empty-length gone e)) refl)
      | inr e ↦ rw e (elim (Option-cases deleted.1) [
        | inl ok ↦
            rw (ok, sym stale)
              (delete_photos-removes k fault (map (λ r. r.key_base) gone) d.store ok)
        | inr (m, bad) ↦ absurd (cc (rw (e, bad) at h))
      ])
    ]
  where
    gone : List KeyRef
    gone = keep (is_gone (b ∷ bs) (effective_prefix config prefix)) (bucket_key_refs d.store)

    deleted : Store × Option String
    deleted = delete_photos fault (map (λ r. r.key_base) gone) d.store

    stale :
        in_list k (map (λ r. r.key_base) gone)
        ≡ any (is_stale (b ∷ bs) (effective_prefix config prefix)) (rows_of k d.store.photos)
    stale =
        unfold bucket_key_refs in
        in_list-gone k (b ∷ bs) (effective_prefix config prefix) d.store.photos
