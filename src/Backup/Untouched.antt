-- ===== src/Backup/Untouched.antt =====
-- catalog/backup.go: a restore that fails loses nothing.
use fragments.Base.{
  ap, String, str_append, true, false, Option, none, some, ◌⊎◌, inl, inr, str_eq, ◌≡◌, refl, ◌∙◌,
}
use fragments.Backup.Drained.{is_unread, IsSqlite}
use fragments.Backup.Restore.{Steps, Files, remove_all, pre_restore}

-- The names that a restore uses are different: CreateTemp's is new, and the others end differently.
pub record AreNames (db tmp : String) : Type 0 where
  pub db_tmp : str_eq db tmp ≡ false
  pub db_tmp_wal : str_eq db (str_append tmp "-wal") ≡ false
  pub db_tmp_shm : str_eq db (str_append tmp "-shm") ≡ false
  pub wal_tmp : str_eq (str_append db "-wal") tmp ≡ false
  pub wal_tmp_wal : str_eq (str_append db "-wal") (str_append tmp "-wal") ≡ false
  pub wal_tmp_shm : str_eq (str_append db "-wal") (str_append tmp "-shm") ≡ false
  pub wal_db : str_eq (str_append db "-wal") db ≡ false
  pub wal_shm : str_eq (str_append db "-wal") (str_append db "-shm") ≡ false
  pub shm_tmp : str_eq (str_append db "-shm") tmp ≡ false
  pub shm_db : str_eq (str_append db "-shm") db ≡ false
  pub pre_db : str_eq (pre_restore db) db ≡ false
  pub pre_tmp : str_eq (pre_restore db) tmp ≡ false
  pub pre_tmp_wal : str_eq (pre_restore db) (str_append tmp "-wal") ≡ false
  pub pre_tmp_shm : str_eq (pre_restore db) (str_append tmp "-shm") ≡ false
  pub pre_wal : str_eq (pre_restore db) (str_append db "-wal") ≡ false
  pub pre_shm : str_eq (pre_restore db) (str_append db "-shm") ≡ false
  pub tmp_db : str_eq tmp db ≡ false
  pub tmp_pre : str_eq tmp (pre_restore db) ≡ false
  pub tmp_wal : str_eq tmp (str_append db "-wal") ≡ false
  pub tmp_shm : str_eq tmp (str_append db "-shm") ≡ false

module _ {C D : Type 0} (view : Option C → Option C → D) (env : Steps C) (db tmp : String)
    (fs : Files C) where
  abbrev pub log_of : Files C → Option C
  log_of g = g (str_append db "-wal")

  -- A reader finds the old catalogue's data.
  abbrev pub InPlace : Files C → Type 0
  InPlace end = view (end db) (log_of end) ≡ view (fs db) (log_of fs)

  -- The old catalogue is put aside as SQLite left it; unless SQLite could not read it, a reader finds
  -- all its data there, without a log.
  abbrev pub Parked : Files C → Type 0
  Parked end =
      (end (pre_restore db) ≡ env.left_file)
      × ((is_unread env ≡ true) ⊎ (view (end (pre_restore db)) none ≡ view (fs db) (log_of fs)))

  abbrev pub Safe : Files C → Type 0
  Safe end = (fs db ≡ none) ⊎ (InPlace end ⊎ Parked end)

  -- After a success the catalogue is the verified body, without a log or an index, and the old one, if
  -- any, is put aside; after an error the old one, if any, is in place or put aside.
  abbrev pub Restored : Files C × Option String → Type 0
  Restored (end, none) =
      ((c : C) × (env.body ≡ inl c) × (env.verify c ≡ none) × (end db ≡ some c))
      × (log_of end ≡ none)
      × (end (str_append db "-shm") ≡ none)
      × ((fs db ≡ none) ⊎ Parked end)
  Restored (end, some e) = Safe end

  module _ (names : AreNames db tmp) (sqlite : IsSqlite view env (fs db) (log_of fs)) where
    rm-db : (g : Files C) → remove_all tmp g db ≡ g db
    rm-db g = rw (names.db_tmp_shm, names.db_tmp_wal, names.db_tmp) refl

    rm-wal : (g : Files C) → log_of (remove_all tmp g) ≡ log_of g
    rm-wal g = rw (names.wal_tmp_shm, names.wal_tmp_wal, names.wal_tmp) refl

    rm-pre : (g : Files C) → remove_all tmp g (pre_restore db) ≡ g (pre_restore db)
    rm-pre g = rw (names.pre_tmp_shm, names.pre_tmp_wal, names.pre_tmp) refl

    -- Removing the temporary files leaves the old catalogue safe.
    rm-InPlace : (g : Files C) → InPlace g → InPlace (remove_all tmp g)
    rm-InPlace g h = (λ i. view (rm-db g i) (rm-wal g i)) ∙ h

    Parked-same :
        (g end : Files C) → end (pre_restore db) ≡ g (pre_restore db) → Parked g → Parked end
    Parked-same g end e h =
        (e ∙ h.0, elim h.1 [ inl k ↦ inl k | inr k ↦ inr (ap (λ o. view o none) e ∙ k) ])

    rm-Parked : (g : Files C) → Parked g → Parked (remove_all tmp g)
    rm-Parked g = Parked-same g (remove_all tmp g) (rm-pre g)

    rm-Safe : (g : Files C) → Safe g → Safe (remove_all tmp g)
    rm-Safe g (inl h) = inl h
    rm-Safe g (inr (inl h)) = inr (inl (rm-InPlace g h))
    rm-Safe g (inr (inr h)) = inr (inr (rm-Parked g h))
