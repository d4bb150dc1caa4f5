-- ===== src/Utils/Logger/Names.antt =====
-- The names that `getNewLogFilePath` (src/utils/logger.cpp) returns while the clock does not go back.
use chatroom_server.Prelude.{
  ℕ, ◌≤◌, ◌<◌, ◌≡◌, ◌≢◌, refl, ap, sym, ◌∙◌, false, Bool-cases, inl, inr, Bytes, bytes_eq,
  bytes_eq_iff, of_if, subst, List, [], ◌∷◌, All, length, ◌==◌, leb, arith,
}
use chatroom_server.Utils.Logger.{
  Logger, open_log_file, purge_expired_log_files, rotate_log_file_if_needed, append_to_file,
  write_log_to_file, concat,
}
use chatroom_server.Utils.Logger.Thread.{
  Writing, testing, asleep, holding, ended, Logging, Act, logged, ran, stirred, is_empty,
  take_batch, write_on,
}
use chatroom_server.Utils.Logged.{IsNew, new_files, open-same, purge-none}
use chatroom_server.Utils.Logger.Orderly.{take-none, take-some}

module _ (name : ℕ → Bytes) where
  -- The thread's steps get the names of times that do not go back, from this time on.
  abbrev pub Rising : ℕ → List Act → Type 0
  Rising k [] = Unit
  Rising k (logged new_path message ∷ more) = Rising k more
  Rising k (ran new_path ∷ more) = (t : ℕ) × (k ≤ t) × (new_path ≡ name t) × Rising t more
  Rising k (stirred ∷ more) = Rising k more

  -- No file has a name that is yet to come; the current one may have that of this time.
  pub record IsAhead (k : ℕ) (l : Logger) : Type 0 where
    pub backups : (t : ℕ) → k ≤ t → IsNew (name t) l
    pub current : (t : ℕ) → k < t → bytes_eq (name t) l.current.0 ≡ false

  later-IsAhead : (k t : ℕ) (l : Logger) → k ≤ t → IsAhead k l → IsAhead t l
  later-IsAhead k t l h a = record {
    backups = λ u le. a.backups u (omega (arith, le, h));
    current = λ u lt. a.current u (omega (arith, lt, h));
  }

  different : (p q : Bytes) → p ≢ q → bytes_eq p q ≡ false
  different p q ne = elim (Bool-cases (bytes_eq p q)) [
    | inl e ↦ absurd (ne ((bytes_eq_iff p q).0 e))
    | inr e ↦ e
  ]

  module _ (distinct : (a b : ℕ) → a ≢ b → name a ≢ name b) where
    open-IsAhead :
        (k t : ℕ) (l : Logger) → k ≤ t → IsAhead k l → IsAhead t (open_log_file (name t) l)
    unfolding open_log_file
    open-IsAhead k t l h a = elim (Bool-cases (bytes_eq (name t) l.current.0)) [
      | inl e ↦ rw e (later-IsAhead k t l h a)
      | inr e ↦ rw e (record {
        backups = λ u le. (
          elim (Bool-cases (u == t)) [
            | inl same ↦
                let is_t : u ≡ t = ground (arith, same) in
                ap (λ v. bytes_eq (name v) l.current.0) is_t ∙ e
            | inr other ↦ a.current u (ground (arith, other, le, h))
          ],
          subst (All (λ f. bytes_eq (name u) f.0 ≡ false))
              (sym (new_files (name t) l.backups (a.backups t h)).1)
              (a.backups u (omega (arith, le, h))),
        );
        current = λ u lt. different (name u) (name t) (distinct u t (λ e. omega (arith, e, lt)));
      })
    ]

    rotate-IsAhead :
        (k t : ℕ) (l : Logger)
        → k ≤ t
        → l.config.max_backup_files ≡ 0
        → IsAhead k l
        → IsAhead t (rotate_log_file_if_needed (name t) l)
    unfolding rotate_log_file_if_needed
    rotate-IsAhead k t l h keeps a =
        let same = ap (λ c. c.max_backup_files) (open-same (name t) l).0 ∙ keeps in
        let all = purge-none (open_log_file (name t) l) same in
        of_if (IsAhead t) (leb l.config.max_file_size (length l.current.1))
          (purge_expired_log_files (open_log_file (name t) l)) l
          (λ e. subst (IsAhead t) (sym all) (open-IsAhead k t l h a)) (λ e. later-IsAhead k t l h a)

    write-IsAhead :
        (k t : ℕ) (message : Bytes) (l : Logger)
        → k ≤ t
        → l.config.max_backup_files ≡ 0
        → IsAhead k l
        → IsAhead t (write_log_to_file (name t) message l)
    unfolding write_log_to_file append_to_file
    write-IsAhead k t message l h keeps a =
        let r = rotate-IsAhead k t l h keeps a in
        record { backups = r.backups; current = r.current }

    take_batch-IsAhead :
        (t : ℕ) (s : Logging) (queue : List Bytes)
        → s.logger.log_queue ≡ queue
        → s.stop_logging ≡ false
        → IsAhead t s.logger
        → IsAhead t (take_batch s).logger
    take_batch-IsAhead t s [] e goes a =
        subst (λ x. IsAhead t x.logger) (sym (take-none s e goes)) a
    take_batch-IsAhead t s (m ∷ ms) e goes a =
        subst (λ x. IsAhead t x.logger) (sym (take-some s m ms e))
          (record { backups = a.backups; current = a.current })

    pub write_on-IsAhead :
        (k t : ℕ) (phase : Writing) (s : Logging)
        → k ≤ t
        → s.logger.config.max_backup_files ≡ 0
        → s.stop_logging ≡ false
        → IsAhead k s.logger
        → IsAhead t (write_on (name t) phase s).logger
    unfolding write_on
    write_on-IsAhead k t testing s h keeps goes a =
        take_batch-IsAhead t s s.logger.log_queue refl goes (later-IsAhead k t s.logger h a)
    write_on-IsAhead k t asleep s h keeps goes a = later-IsAhead k t s.logger h a
    write_on-IsAhead k t (holding batch) s h keeps goes a =
        of_if (IsAhead t) (is_empty batch) s.logger
          (write_log_to_file (name t) (concat batch) s.logger) (λ e. later-IsAhead k t s.logger h a)
          (λ e. write-IsAhead k t (concat batch) s.logger h keeps a)
    write_on-IsAhead k t ended s h keeps goes a = later-IsAhead k t s.logger h a
