-- ===== src/Backup/Listing.antt =====
-- catalog/s3.go and catalog/backup.go: ListBackupObjects and ListBackups, the backups of a bucket.
use fragments.Base.{
  ℕ, String, str_append, Bool, not, ◌||◌, List, [], ◌∷◌, ◌++◌, ◌⊎◌, inl, inr, codes, text_lt, ltb,
  ◌==◌, keep, sort_by, if◌then◌else◌,
}
use fragments.Bucket.Keys.{is_empty, ends_at}

abbrev pub backup_prefix : String
backup_prefix = "backups/"

-- An object of a listing page, as it is kept: a missing key is "".
pub record BackupInfo : Type 0 where
  pub key : String
  pub size : ℕ
  pub last_modified : ℕ

-- Folder placeholders are passed over.
abbrev pub is_object : BackupInfo → Bool
is_object o = not (is_empty o.key || ends_at b'/' o.key)

abbrev pub with_page : List BackupInfo → List BackupInfo ⊎ String → List BackupInfo ⊎ String
with_page os (inr e) = inr e
with_page os (inl infos) = inl (keep is_object os ++ infos)

-- The paginator's answers, to the first that fails.
unfoldable pub collect : List (List BackupInfo ⊎ String) → List BackupInfo ⊎ String
collect [] = inl []
collect (inr e ∷ pages) = inr (str_append "list objects: " e)
collect (inl os ∷ pages) = with_page os (collect pages)

-- The order of the sort: by time, and by key at the same time.
unfoldable pub is_older : BackupInfo → BackupInfo → Bool
is_older o p =
    if o.last_modified == p.last_modified
    then text_lt (codes o.key) (codes p.key)
    else ltb o.last_modified p.last_modified

abbrev pub sorted : List BackupInfo ⊎ String → List BackupInfo ⊎ String
sorted (inr e) = inr e
sorted (inl infos) = inl (sort_by is_older infos)

-- `bucket` is what the paginator answers under a prefix.
abbrev pub BucketPages : Type 0
BucketPages = String → List (List BackupInfo ⊎ String)

unfoldable pub list_backup_objects : BucketPages → String → List BackupInfo ⊎ String
unfolding collect
list_backup_objects bucket prefix = sorted (collect (bucket prefix))

unfoldable pub list_backups : BucketPages → List BackupInfo ⊎ String
unfolding list_backup_objects
list_backups bucket = list_backup_objects bucket backup_prefix
