-- ===== src/Backup/Order.antt =====
-- catalog/s3.go: the order of the backups in a listing.
use fragments.Base.{◌≡◌, true, false, codes, text_lt, text_lt-asym, text_lt-upward, arith, ◌<◌, ◌⊎◌}
use fragments.Backup.Listing.{BackupInfo, is_older}

pub is_older-asym : (o p : BackupInfo) → is_older o p ≡ true → is_older p o ≡ false
unfolding is_older
is_older-asym o p h = ground (arith, text_lt-asym (codes o.key) (codes p.key))

pub is_older-upward :
    (o p q : BackupInfo) → is_older p o ≡ false → is_older q p ≡ false → is_older q o ≡ false
unfolding is_older
is_older-upward o p q h k = ground (arith, text_lt-upward (codes o.key) (codes p.key) (codes q.key))

-- One backup is from an earlier instant than another, or from the same and its key is not behind.
abbrev pub Precedes : BackupInfo → BackupInfo → Type 0
Precedes o p =
    (o.last_modified < p.last_modified)
    ⊎ ((o.last_modified ≡ p.last_modified) × (text_lt (codes p.key) (codes o.key) ≡ false))

pub is_older-Precedes : (o p : BackupInfo) → is_older p o ≡ false → Precedes o p
unfolding is_older
is_older-Precedes o p h = ground arith
