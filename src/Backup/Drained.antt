-- ===== src/Backup/Drained.antt =====
-- catalog/backup.go: what drainOldDB says of the old catalogue, and what SQLite promises of it.
use fragments.Base.{
  ℕ, ◌==◌, ◌||◌, is_none, String, Bool, true, false, ◌&&◌, Option, none, some, ◌⊎◌, inl, inr,
  is_some, ◌≡◌, refl, Bool-cases,
}
use fragments.Backup.Restore.{Steps, drain_old_db}

abbrev checkpoint_done : ℕ ⊎ String → Bool
checkpoint_done (inl busy) = busy == 0
checkpoint_done (inr e) = false

-- The checkpoint of the old catalogue went through.
abbrev pub is_checkpointed : {C : Type 0} → Steps C → Bool
is_checkpointed env =
    is_none env.open_fault && is_none env.pragma_fault && checkpoint_done env.checkpoint

abbrev checkpoint_failed : ℕ ⊎ String → Bool
checkpoint_failed (inl busy) = false
checkpoint_failed (inr e) = true

-- SQLite could not open the old catalogue, or the pragma or the checkpoint failed.
abbrev pub is_unread : {C : Type 0} → Steps C → Bool
is_unread env =
    is_some env.open_fault || is_some env.pragma_fault || checkpoint_failed env.checkpoint

pub drained-cases :
    (open_error pragma : Option String) (c : ℕ ⊎ String)
    → drain_old_db open_error pragma c ≡ none
    → ((is_some open_error || is_some pragma || checkpoint_failed c) ≡ true)
      ⊎ ((is_none open_error && is_none pragma && checkpoint_done c) ≡ true)
unfolding drain_old_db
drained-cases (some e) pragma c h = inl refl
drained-cases none (some e) c h = inl refl
drained-cases none none (inr e) h = inl refl
drained-cases none none (inl busy) h = elim (Bool-cases (busy == 0)) [
  | inl k ↦ inr (rw k refl)
  | inr k ↦ absurd (cc (rw k at h))
]

-- What SQLite promises of a catalogue that it opens and closes, where `view` is what a reader finds in
-- a file with a log: the same as before, and behind a checkpoint that went through the same without
-- the log.
pub record IsSqlite {C D : Type 0} (view : Option C → Option C → D) (env : Steps C)
    (file log : Option C) : Type 0 where
  pub unchanged : view env.left_file env.left_log ≡ view file log
  pub written :
      is_checkpointed env ≡ true → view env.left_file none ≡ view env.left_file env.left_log
