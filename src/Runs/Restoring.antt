-- ===== src/Runs/Restoring.antt =====
-- catalog/backup.go on a bucket with two backups, and on a directory with an old catalogue.
use fragments.Base.{
  ℕ, String, refl, none, some, List, [], ◌∷◌, inl, str_eq, pos, Option, ◌+◌, if◌then◌else◌,
}
use fragments.Bucket.Delete.{delete_objects}
use fragments.Bucket.Keys.{ends_at}
use fragments.Backup.Listing.{
  BackupInfo, BucketPages, collect, is_older, list_backups, list_backup_objects,
}
use fragments.Backup.Rotation.{
  Rotated, AreGone, prune_backups, rotate, is_default_name, display_name, prune_backups-prunes,
}
use fragments.Backup.Restore.{Steps, Files}
use fragments.Runs.Data.{locked_bucket, locked_bucket-IsS3}

abbrev old_key : String
old_key = "backups/catalog-20240101-000000.db"

abbrev new_key : String
new_key = "backups/catalog-20240201-000000.db"

abbrev old_backup : BackupInfo
old_backup = record { key = old_key; size = 1; last_modified = 1 }

abbrev new_backup : BackupInfo
new_backup = record { key = new_key; size = 1; last_modified = 2 }

-- The newest first.
abbrev backups : List BackupInfo
backups = new_backup ∷ old_backup ∷ []

abbrev bucket_pages : BucketPages
bucket_pages prefix = inl backups ∷ []

prune_backups-prunes_example :
    Rotated 1 backups (old_key ∷ [])
    × AreGone locked_bucket locked_bucket-IsS3
        (old_key ∷ [])
        (prune_backups locked_bucket (pos 1) bucket_pages (old_key ∷ new_key ∷ [])).0
unfolding prune_backups rotate is_default_name display_name delete_objects collect list_backups
    list_backup_objects is_older ends_at
prune_backups-prunes_example =
    prune_backups-prunes locked_bucket locked_bucket-IsS3 0 bucket_pages backups
      (old_key ∷ new_key ∷ []) (old_key ∷ []) refl refl

abbrev fine : Steps ℕ
fine = record {
  mkdir_fault = none;
  body = inl 7;
  temp_fault = none;
  copy_fault = none;
  close_fault = none;
  verify = λ c. none;
  open_fault = none;
  pragma_fault = none;
  checkpoint = inl 0;
  left_file = some 5;
  left_log = none;
  left_index = none;
  park_fault = none;
  install_fault = none;
}

-- A catalogue 3 with a log 2.
abbrev directory : Files ℕ
directory p = if str_eq p "c.db" then some 3 else (if str_eq p "c.db-wal" then some 2 else none)

-- A reader of these files finds the sum of the file and its log.
abbrev summed : Option ℕ → Option ℕ → ℕ
summed none log = 0
summed (some n) none = n
summed (some n) (some m) = n + m
