-- ===== src/Utils/Logged.antt =====
-- What Logger (src/utils/logger.cpp) keeps of the messages: rotation loses and reorders none,
-- and a purge bounds the number of files.
use chatroom_server.Prelude.{
  ℕ, ◌+◌, ◌-◌, ◌≤◌, ◌<◌, ◌≡◌, ◌++◌, ◌∙◌, ap, refl, sym, subst, zero, suc, inl, inr, Bool, true,
  false, Bool-cases, Bytes, bytes_eq, All, length, take, List, [], ◌∷◌, if◌then◌else◌, leb, ◌==◌,
  arith, append_assoc, append-nil,
}
use chatroom_server.Utils.Logger.{
  Logger, file_text, other_files, open_log_file, purge_expired_log_files, rotate_log_file_if_needed,
  append_to_file, write_log_to_file, concat,
}

-- The text of the files from the oldest on.
unfoldable pub texts : List (Bytes × Bytes) → Bytes
texts [] = []
texts ((path, text) ∷ older) = texts older ++ text

-- What is in the files.
abbrev pub written : Logger → Bytes
written l = texts l.backups ++ l.current.1

-- No file but perhaps the current one has this name.
abbrev pub IsNew : Bytes → Logger → Type 0
IsNew path l = All (λ f. bytes_eq path f.0 ≡ false) l.backups

pub new_files :
    (path : Bytes) (fs : List (Bytes × Bytes))
    → All (λ f. bytes_eq path f.0 ≡ false) fs
    → (file_text path fs ≡ []) × (other_files path fs ≡ fs)
unfolding file_text other_files
new_files path [] h = (refl, refl)
new_files path (f ∷ fs) (e, h) =
    let (none, all) = new_files path fs h in (ground (arith, e, none), ground (arith, e, all))

open-texts :
    (path : Bytes) (l : Logger)
    → IsNew path l
    → texts (open_log_file path l).backups ++ (open_log_file path l).current.1
      ≡ texts l.backups ++ l.current.1
unfolding open_log_file texts
open-texts path l new = elim (Bool-cases (bytes_eq path l.current.0)) [
  | inl e ↦ ground (arith, e)
  | inr e ↦
      let (none, all) = new_files path l.backups new in
      ground (arith, e, none, ap texts all, append-nil (texts l.backups ++ l.current.1))
]

pub open-same :
    (path : Bytes) (l : Logger)
    → ((open_log_file path l).config ≡ l.config) × ((open_log_file path l).log_queue ≡ l.log_queue)
unfolding open_log_file
open-same path l = elim (Bool-cases (bytes_eq path l.current.0)) [
  | inl e ↦ (ground (arith, e), ground (arith, e))
  | inr e ↦ (ground (arith, e), ground (arith, e))
]

pub purge-none : (l : Logger) → l.config.max_backup_files ≡ 0 → purge_expired_log_files l ≡ l
unfolding purge_expired_log_files
purge-none l h = ground (arith, h)

-- Nothing is lost from the files or the queue.
abbrev Same : Logger → Logger → Type 0
Same l after =
    (texts after.backups ++ after.current.1 ≡ texts l.backups ++ l.current.1)
    × ((after.log_queue ≡ l.log_queue) × (after.config ≡ l.config))

if_Same : (b : Bool) (l x : Logger) → Same l x → Same l (if b then x else l)
if_Same true l x h = h
if_Same false l x h = (refl, (refl, refl))

rotate-Same :
    (path : Bytes) (l : Logger)
    → l.config.max_backup_files ≡ 0
    → IsNew path l
    → Same l (rotate_log_file_if_needed path l)
unfolding rotate_log_file_if_needed
rotate-Same path l h new =
    let same = open-same path l in
    let kept_all = purge-none (open_log_file path l) (ap (λ c. c.max_backup_files) same.0 ∙ h) in
    if_Same (leb l.config.max_file_size (length l.current.1)) l
      (purge_expired_log_files (open_log_file path l))
      (subst (Same l) (sym kept_all) (open-texts path l new, (same.1, same.0)))

pub write-texts :
    (path message : Bytes) (l : Logger)
    → l.config.max_backup_files ≡ 0
    → IsNew path l
    → (texts (write_log_to_file path message l).backups
          ++ (write_log_to_file path message l).current.1
        ≡ (texts l.backups ++ l.current.1) ++ message)
      × (((write_log_to_file path message l).log_queue ≡ l.log_queue)
          × ((write_log_to_file path message l).config ≡ l.config))
unfolding write_log_to_file append_to_file
write-texts path message l h new =
    let (same, (queue, config)) = rotate-Same path l h new in
    let after = rotate_log_file_if_needed path l in
    (
      sym (append_assoc (texts after.backups) after.current.1 message) ∙ ap (◌++ message) same,
      (queue, config),
    )

pub concat-append : (ms ns : List Bytes) → concat (ms ++ ns) ≡ concat ms ++ concat ns
unfolding concat
concat-append [] ns = refl
concat-append (m ∷ ms) ns =
    ap (m ++◌) (concat-append ms ns) ∙ sym (append_assoc m (concat ms) (concat ns))

length-take : (n : ℕ) (fs : List (Bytes × Bytes)) → length (take n fs) ≤ n
length-take zero fs = omega arith
length-take (suc n) [] = omega arith
length-take (suc n) (f ∷ fs) = omega (arith, length-take n fs)

of_if : (R : Logger → Type 0) (b : Bool) (x y : Logger) → R x → R y → R (if b then x else y)
of_if R true x y hx hy = hx
of_if R false x y hx hy = hy

purge-bounded :
    (l : Logger)
    → 0 < l.config.max_backup_files
    → length (purge_expired_log_files l).backups + 1 ≤ l.config.max_backup_files
unfolding purge_expired_log_files
purge-bounded l h =
    let size = length-take (l.config.max_backup_files - 1) l.backups in
    elim (Bool-cases (l.config.max_backup_files == 0)) [
      | inl z ↦ ground (arith, z)
      | inr nz ↦ ground (arith, nz, size)
    ]

-- After a rotation no more than `max_backup_files` files are left, the current one counted, if
-- there were no more before, and that is not 0.
pub rotate-bounded :
    (path : Bytes) (l : Logger)
    → 0 < l.config.max_backup_files
    → length l.backups + 1 ≤ l.config.max_backup_files
    → length (rotate_log_file_if_needed path l).backups + 1 ≤ l.config.max_backup_files
unfolding rotate_log_file_if_needed
rotate-bounded path l h b =
    let same : (open_log_file path l).config.max_backup_files ≡ l.config.max_backup_files =
      ap (λ c. c.max_backup_files) (open-same path l).0 in
    let purged = purge-bounded (open_log_file path l) (omega (arith, same)) in
    of_if (λ after. length after.backups + 1 ≤ l.config.max_backup_files)
      (leb l.config.max_file_size (length l.current.1))
      (purge_expired_log_files (open_log_file path l)) l (omega (arith, same, purged)) b
