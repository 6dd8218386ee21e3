-- ===== src/Backup/Rotation.antt =====
-- catalog/backup.go: BackupKey and PruneBackups.
use fragments.Base.{
  ℕ, zero, suc, ◌-◌, ◌≤◌, ◌≡◌, refl, sym, ap, ◌∙◌, String, str_append, Bool, true, false, not, ◌&&◌,
  ◌||◌, Option, none, some, List, [], ◌∷◌, map, ◌⊎◌, inl, inr, codes, leb, ◌==◌, keep, take, length,
  in_list, subst, min, drop, All, sort_by, IsSorted, IsSorted-append, All-mono, keep-IsSorted,
  keep-sort_by-Perm, length-keep-sort_by, sort_by-IsSorted, take-append-drop, length-drop, ◌++◌,
  if◌then◌else◌, ℤ, pos, negsuc, arith, Bool-cases, ◌>>=◌,
}
use mathlib.Core.List.{Perm}
use fragments.Backup.Listing.{
  BackupInfo, BucketPages, backup_prefix, collect, is_older, sorted, list_backup_objects,
  list_backups,
}
use fragments.Backup.Order.{is_older-asym, is_older-upward, Precedes, is_older-Precedes}
use fragments.Bucket.Keys.{is_empty, has_code, safe_key}
use fragments.Bucket.Delete.{Client, IsS3, DeleteError, Deleted, delete_objects}
use fragments.Bucket.Gone.{delete_objects-erases}

-- `stamp` is the time in UTC as 20060102-150405; `none` is the error.
unfoldable pub backup_key : String → String → Option String
backup_key name stamp =
    let full = if is_empty name then str_append "catalog-" (str_append stamp ".db") else name in
    if has_code b'/' full || not (safe_key full) then none else some (str_append backup_prefix full)

abbrev literal : List ℕ → List ℕ → Option (List ℕ)
literal [] s = some s
literal (c ∷ cs) [] = none
literal (c ∷ cs) (x ∷ s) = if c == x then literal cs s else none

abbrev digits_of : ℕ → List ℕ → Option (List ℕ)
digits_of zero s = some s
digits_of (suc n) [] = none
digits_of (suc n) (x ∷ s) = if leb b'0' x && leb x b'9' then digits_of n s else none

abbrev at_end : Option (List ℕ) → Bool
at_end none = false
at_end (some []) = true
at_end (some (x ∷ s)) = false

-- ^catalog-\d{8}-\d{6}\.db$
unfoldable pub is_default_name : List ℕ → Bool
is_default_name s = at_end (do
  a ← literal (codes "catalog-") s
  b ← digits_of 8 a
  c ← literal (codes "-") b
  d ← digits_of 6 c
  literal (codes ".db") d)

abbrev trimmed : Option (List ℕ) → List ℕ → List ℕ
trimmed none s = s
trimmed (some t) s = t

-- BackupDisplayName: the key without the prefix.
unfoldable pub display_name : String → List ℕ
display_name key = trimmed (literal (codes backup_prefix) (codes key)) (codes key)

abbrev pub is_rotatable : BackupInfo → Bool
is_rotatable o = is_default_name (display_name o.key)

abbrev pub rotatable : List BackupInfo → List BackupInfo
rotatable infos = keep is_rotatable infos

abbrev first_failure : List DeleteError → List String → List String ⊎ String
first_failure [] keys = inl keys
first_failure (e ∷ es) keys =
    inr (str_append "delete " (str_append e.key (str_append ": " e.message)))

abbrev pub pruned : {R : Type 0} → List String → Deleted R → Option String → List String ⊎ String
pruned keys d none = first_failure d.failed keys
pruned keys d (some e) = inr e

module _ {R : Type 0} (c : Client R) where
  unfoldable pub rotate : ℕ → List BackupInfo → R → R × (List String ⊎ String)
  rotate n infos r =
      let old = rotatable infos in
      if leb (length old) n
      then (r, inl [])
      else (let keys = map (λ (o : BackupInfo). o.key) (take (length old - n) old) in
          let d = delete_objects c keys r in (d.remote, pruned keys d d.fatal))

  abbrev pub rotate_listed : ℕ → List BackupInfo ⊎ String → R → R × (List String ⊎ String)
  rotate_listed n (inr e) r = (r, inr e)
  rotate_listed n (inl infos) r = rotate n infos r

  -- `bucket` is what the paginator answers under a prefix.
  unfoldable pub prune_backups : ℤ → BucketPages → R → R × (List String ⊎ String)
  unfolding rotate
  prune_backups (negsuc _) bucket r = (r, inl [])
  prune_backups (pos zero) bucket r = (r, inl [])
  prune_backups (pos (suc n)) bucket r = rotate_listed (suc n) (list_backups bucket) r

abbrev pub key_of : BackupInfo → String
key_of o = o.key

-- A rotation of the backups `found` that keeps n: the keys that it deletes are those of `gone`.
abbrev pub Rotated : ℕ → List BackupInfo → List String → Type 0
Rotated n found keys =
    (gone : List BackupInfo) × (kept : List BackupInfo) × (keys ≡ map key_of gone)
    × Perm (gone ++ kept) found
    × (length kept ≡ min n (length found))
    × All (λ o. All (Precedes o) kept) gone

cut_at :
    (n : ℕ) (infos found : List BackupInfo)
    → Perm (rotatable infos) found
    → length (rotatable infos) ≡ length found
    → IsSorted is_older infos
    → Rotated n found (map key_of (take (length (rotatable infos) - n) (rotatable infos)))
cut_at n infos found same size order =
    let old = rotatable infos in
    let at = length old - n in
    let whole = take-append-drop at old in
    (
      take at old,
      drop at old,
      refl,
      subst (λ os. Perm os found) (sym whole) same,
      omega (arith, length-drop at old, size),
      All-mono (λ o. All (λ p. is_older p o ≡ false) (drop at old))
          (λ o. All (Precedes o) (drop at old))
          (λ o.
            All-mono (λ p. is_older p o ≡ false) (Precedes o) (is_older-Precedes o) (drop at old))
          (take at old)
          (IsSorted-append is_older (take at old) (drop at old) (
            subst (IsSorted is_older) (sym whole)
              (keep-IsSorted is_older is_rotatable infos order))),
    )

take-all : (n : ℕ) (os : List BackupInfo) → length os ≤ n → take (length os - n) os ≡ []
take-all n os h = let none_over : length os - n ≡ 0 = omega arith in rw none_over refl

module _ {R : Type 0} (c : Client R) (s3 : IsS3 c) where
  -- None of the keys' objects is still there.
  abbrev pub AreGone : List String → R → Type 0
  AreGone keys r = (x : String) → in_list x keys ≡ true → c.has x r ≡ false

  pruned-erases :
      (keys ks : List String) (r : R) (f : Option String)
      → (delete_objects c ks r).fatal ≡ f
      → pruned ks (delete_objects c ks r) f ≡ inl keys
      → (keys ≡ ks) × AreGone keys (delete_objects c ks r).remote
  pruned-erases keys ks r (some e) q h = absurd (cc (h))
  pruned-erases keys ks r none q h = go (delete_objects c ks r).failed refl h
    where
      go :
          (es : List DeleteError)
          → (delete_objects c ks r).failed ≡ es
          → first_failure es ks ≡ inl keys
          → (keys ≡ ks) × AreGone keys (delete_objects c ks r).remote
      go [] e k =
          let same : ks ≡ keys = cc (k) in
          (
            sym same,
            λ x m. elim (Bool-cases (c.has x (delete_objects c ks r).remote)) [
              | inl p ↦ absurd (cc (rw e at (delete_objects-erases c s3 x ks r q (rw same m) p)))
              | inr p ↦ p
            ],
          )
      go (d ∷ es) e k = absurd (cc (k))

  rotate-Rotated :
      (n : ℕ) (infos found : List BackupInfo) (r : R) (keys : List String)
      → Perm (rotatable infos) found
      → length (rotatable infos) ≡ length found
      → IsSorted is_older infos
      → (rotate c n infos r).1 ≡ inl keys
      → Rotated n found keys × AreGone keys (rotate c n infos r).0
  unfolding rotate
  rotate-Rotated n infos found r keys same size order h =
      let ks = map key_of (take (length (rotatable infos) - n) (rotatable infos)) in
      elim (Bool-cases (leb (length (rotatable infos)) n)) [
        | inl e ↦
            let nothing : [] ≡ keys = cc (rw e at h) in
            let none_of : ks ≡ keys =
              ap (map key_of) (take-all n (rotatable infos) (ground (arith))) ∙ nothing in
            (
              subst (Rotated n found) none_of (cut_at n infos found same size order),
              rw (sym nothing) (λ x m. absurd (cc (m))),
            )
        | inr e ↦
            let done = pruned-erases keys ks r (delete_objects c ks r).fatal refl (rw e at h) in
            (
              subst (Rotated n found) (sym done.0) (cut_at n infos found same size order),
              rw e (done.1),
            )
      ]

  listed-Rotated :
      (n : ℕ) (objects : List BackupInfo) (o : List BackupInfo ⊎ String) (r : R)
      (keys : List String)
      → o ≡ inl objects
      → (rotate_listed c n (sorted o) r).1 ≡ inl keys
      → Rotated n (rotatable objects) keys × AreGone keys (rotate_listed c n (sorted o) r).0
  listed-Rotated n objects (inr e) r keys q h = absurd (cc (q))
  listed-Rotated n objects (inl infos) r keys q h =
      let same : infos ≡ objects = cc (q) in
      rotate-Rotated n (sort_by is_older infos) (rotatable objects) r keys
        (subst (λ os. Perm (rotatable (sort_by is_older infos)) (rotatable os)) same
          (keep-sort_by-Perm is_older is_rotatable infos))
        (length-keep-sort_by is_older is_rotatable infos ∙ ap (λ os. length (rotatable os)) same)
        (sort_by-IsSorted is_older is_older-asym is_older-upward infos) h

  -- With a client that keeps S3's promises: if the bucket's listing finds some objects under the
  -- backups' prefix, in any order, and a rotation that keeps n backups, n above 0, goes through, then
  -- the backups with generated names are parted into deleted and kept ones: n are kept, or all if
  -- there are fewer; each deleted one is from an earlier instant than each kept one, or from the same
  -- with a key that is not behind; it answers the deleted ones' keys, and none of their objects is
  -- still there.
  pub prune_backups-prunes :
      (n : ℕ) (bucket : BucketPages) (objects : List BackupInfo) (r : R) (keys : List String)
      → collect (bucket backup_prefix) ≡ inl objects
      → (prune_backups c (pos (suc n)) bucket r).1 ≡ inl keys
      → Rotated (suc n) (rotatable objects) keys
        × AreGone keys (prune_backups c (pos (suc n)) bucket r).0
  unfolding prune_backups list_backups list_backup_objects
  prune_backups-prunes n bucket objects r keys q h =
      listed-Rotated (suc n) objects (collect (bucket backup_prefix)) r keys q h
