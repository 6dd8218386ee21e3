-- ===== src/Backup/Restore.antt =====
-- catalog/backup.go: RestoreBackup over the files of the data directory. Reading the bucket, SQLite
-- and the errors of the file system are what a restore meets.
use fragments.Base.{
  ℕ, ◌==◌, String, str_append, Bool, true, false, not, ◌&&◌, Option, none, some, ◌⊎◌, inl, inr,
  str_eq, if◌then◌else◌, is_some,
}

-- What a restore meets: the object's body or the error of opening it, and the error, if any, of each
-- step. `verify` is verifyCatalogDB of a content. Of SQLite on the old catalogue: the errors of
-- opening it and of the pragma, the checkpoint's `busy` or its error, and what is left at the
-- catalogue, its log (-wal) and its index (-shm) when it is closed again.
pub record Steps (C : Type 0) : Type 0 where
  pub mkdir_fault : Option String
  pub body : C ⊎ String
  pub temp_fault : Option String
  pub copy_fault : Option (C × String)
  pub close_fault : Option String
  pub verify : C → Option String
  pub open_fault : Option String
  pub pragma_fault : Option String
  pub checkpoint : ℕ ⊎ String
  pub left_file : Option C
  pub left_log : Option C
  pub left_index : Option C
  pub park_fault : Option String
  pub install_fault : Option String

-- drainOldDB: only a busy checkpoint is an error.
unfoldable pub drain_old_db : Option String → Option String → ℕ ⊎ String → Option String
drain_old_db (some e) pragma checkpoint = none
drain_old_db none (some e) checkpoint = none
drain_old_db none none (inr e) = none
drain_old_db none none (inl busy) =
    if busy == 0 then none else some "catalog appears to be in use — stop fragments serve and retry"

abbrev pub Files : Type 0 → Type 0
Files C = String → Option C

abbrev pub pre_restore : String → String
pre_restore db = str_append db ".pre-restore"

module _ {C : Type 0} where
  abbrev pub set_file : String → Option C → Files C → Files C
  set_file path c fs p = if str_eq p path then c else fs p

  -- os.Rename
  abbrev pub rename : String → String → Files C → Files C
  rename from to fs = set_file from none (set_file to (fs from) fs)

  abbrev pub remove_all : String → Files C → Files C
  remove_all path fs =
      set_file (str_append path "-shm") none
        (set_file (str_append path "-wal") none (set_file path none fs))

  abbrev pub remove_sidecars : String → Files C → Files C
  remove_sidecars path fs =
      set_file (str_append path "-shm") none (set_file (str_append path "-wal") none fs)

  -- The old catalogue's files as SQLite leaves them.
  abbrev pub closed_old : Steps C → String → Files C → Files C
  closed_old env db fs = set_file db env.left_file (
      set_file (str_append db "-wal") env.left_log
        (set_file (str_append db "-shm") env.left_index fs))

  module _ (env : Steps C) (db tmp : String) where
    unfoldable pub install : Option String → Files C → Files C × Option String
    install (some e) fs = (remove_all tmp fs, some e)
    install none fs = (rename tmp db fs, none)

    unfoldable pub park : Option String → Files C → Files C × Option String
    unfolding install
    park (some e) fs = (remove_all tmp fs, some e)
    park none fs = install env.install_fault (remove_sidecars db (rename db (pre_restore db) fs))

    unfoldable pub drain : Option String → Files C → Files C × Option String
    unfolding park
    drain (some e) fs = (remove_all tmp fs, some e)
    drain none fs = park env.park_fault fs

    -- The old catalogue, if there is one, is put aside.
    unfoldable pub replace : Bool → Files C → Files C × Option String
    unfolding drain install drain_old_db
    replace true fs =
        drain (drain_old_db env.open_fault env.pragma_fault env.checkpoint) (closed_old env db fs)
    replace false fs = install env.install_fault (remove_sidecars db fs)

    unfoldable pub verified : String → Option String → Bool → Files C → Files C × Option String
    unfolding replace
    verified name (some e) old fs = (
      remove_all tmp fs,
      some (str_append "backup " (str_append name (str_append " failed verification: " e))),
    )
    verified name none old fs = replace old fs

    unfoldable pub closed : String → Option String → C → Bool → Files C → Files C × Option String
    unfolding verified
    closed name (some e) c old fs = (remove_all tmp fs, some e)
    closed name none c old fs = verified name (env.verify c) old fs

    unfoldable pub copied :
        String → Option (C × String) → C → Bool → Files C → Files C × Option String
    unfolding closed
    copied key (some (part, e)) c old fs = (
      remove_all tmp (set_file tmp (some part) fs),
      some (str_append "download " (str_append key (str_append ": " e))),
    )
    copied key none c old fs = closed key env.close_fault c old (set_file tmp (some c) fs)

    unfoldable pub temped : String → Option String → C → Bool → Files C → Files C × Option String
    unfolding copied
    temped key (some e) c old fs = (fs, some e)
    temped key none c old fs = copied key env.copy_fault c old fs

    unfoldable pub opened : String → C ⊎ String → Bool → Files C → Files C × Option String
    unfolding temped
    opened key (inr e) old fs = (fs, some e)
    opened key (inl c) old fs = temped key env.temp_fault c old fs

    unfoldable pub made : String → Option String → Bool → Files C → Files C × Option String
    unfolding opened
    made key (some e) old fs = (fs, some e)
    made key none old fs = opened key env.body old fs

    unfoldable pub restore_backup : String → Bool → Files C → Files C × Option String
    unfolding made
    restore_backup key force fs =
        let old = is_some (fs db) in
        if old && not force
        then (
          fs,
          some
              (str_append db " already exists; stop fragments serve and pass -force to replace it"),
        )
        else made key env.mkdir_fault old fs
