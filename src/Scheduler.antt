-- ===== src/Scheduler.antt =====
-- stardustlib/replication_scheduler.py: the cycles of ReplicationScheduler. The manager and the
-- metadata are the argument `manager`, whose calls take the world along; the times are seconds of the
-- event loop's clock. The files of a backup cycle are done one after another.
pub mod Grace
use stardustfs.Prelude.{
  ℕ, Text, Bool, true, false, Option, none, some, List, [], ◌∷◌, ◌++◌, ◌+◌, ◌==◌, text_eq,
  if◌then◌else◌, Result, ok, err, Error, file_not_found, ltb, leb, not, filter, any, take, codes,
  length,
}
use stardustfs.Network.{Run}
use stardustfs.Table.{find_row}

-- What the scheduler calls: the paths with one of the statuses, `replicate`, the field `degraded` of
-- `replication_health`, `ensure_replicas`, and whether the stop signal is set.
pub record Manager (W : Type 0) : Type 0 where
  pub paths_with : List Text → W → List Text
  pub replicate : Text → Run W (Unit {0})
  pub is_degraded : Text → Run W Bool
  pub ensure_replicas : Text → Run W (Unit {0})
  pub is_stopped : W → Bool

pub record Observation : Type 0 where
  pub path : Text
  pub since : ℕ

abbrev pub path_of : Observation → Text
path_of o = o.path

pub record Scheduler : Type 0 where
  pub degraded_since : List Observation
  pub skip_backup : List Text

pub record Settings : Type 0 where
  pub max_files : ℕ
  pub heal_grace : ℕ
  pub backup_interval : ℕ

abbrev pub contains : Text → List Text → Bool
contains path paths = any (λ p. p == path) paths

-- `dict.setdefault`: the observation that is there, and the dict after it.
unfoldable pub set_default : Text → ℕ → List Observation → ℕ × List Observation
set_default path now seen = elim (find_row path_of path seen) [
  | some o ↦ (o.since, seen)
  | none ↦ (now, seen ++ record { path = path; since = now } ∷ [])
]

-- `dict.pop(path, None)`
unfoldable pub forget : Text → List Observation → List Observation
forget path seen = filter (λ o. not (path_of o == path)) seen

-- What a backup of one file comes to.
abbrev pub after_backup :
    {W : Type 0} → Text → ℕ × Scheduler → Result (Unit {0}) × W → ℕ × Scheduler × W
after_backup path (done, st) (ok u, w) = (done + 1, st, w)
after_backup path (done, st) (err file_not_found, w) =
    (done, record st { skip_backup = path ∷ st.skip_backup }, w)
after_backup path (done, st) (err e, w) = (done, st, w)

module _ {W : Type 0} (settings : Settings) (manager : Manager W) where
  unfoldable pub back_up_each : List Text → ℕ → Scheduler → W → ℕ × Scheduler × W
  back_up_each [] done st w = (done, st, w)
  back_up_each (path ∷ paths) done st w =
      if manager.is_stopped w
      then back_up_each paths done st w
      else let (done', st', w') = after_backup path (done, st) (manager.replicate path w) in
        back_up_each paths done' st' w'

  -- The files that were not found are left out of those that the limit admits.
  unfoldable pub run_backup_cycle : Scheduler → W → ℕ × Scheduler × W
  run_backup_cycle st w =
      let paths =
        take settings.max_files (manager.paths_with (codes "none" ∷ codes "pending" ∷ []) w) in
      back_up_each (filter (λ p. not (contains p st.skip_backup)) paths) 0 st w

  -- The wait after a backup cycle: short where the limit was reached.
  unfoldable pub backup_delay : ℕ → ℕ
  backup_delay processed = if leb settings.max_files processed then 2 else settings.backup_interval

  abbrev pub after_repair :
      Text → ℕ × List Observation → Result (Unit {0}) × W → ℕ × List Observation × W
  after_repair path (repaired, seen) (ok u, w) = (repaired + 1, forget path seen, w)
  after_repair path (repaired, seen) (err e, w) = (repaired, seen, w)

  -- A file whose health was asked for at `now`.
  unfoldable pub after_health :
      ℕ → Text → ℕ × List Observation → Result Bool × W → ℕ × List Observation × W
  after_health now path (repaired, seen) (err e, w) = (repaired, seen, w)
  after_health now path (repaired, seen) (ok false, w) = (repaired, forget path seen, w)
  after_health now path (repaired, seen) (ok true, w) =
      let (first, seen') = set_default path now seen in
      if ltb now (first + settings.heal_grace)
      then (repaired, seen', w)
      else after_repair path (repaired, seen') (manager.ensure_replicas path w)

  unfoldable pub heal_each : ℕ → List Text → ℕ → List Observation → W → ℕ × List Observation × W
  heal_each now [] repaired seen w = (repaired, seen, w)
  heal_each now (path ∷ paths) repaired seen w =
      if manager.is_stopped w
      then (repaired, seen, w)
      else let (repaired', seen', w') =
          after_health now path (repaired, seen) (manager.is_degraded path w) in
        heal_each now paths repaired' seen' w'

  unfoldable pub run_heal_cycle : ℕ → Scheduler → W → ℕ × Scheduler × W
  run_heal_cycle now st w =
      let paths = take settings.max_files (manager.paths_with (codes "replicated" ∷ []) w) in
      let (repaired, seen, w') = heal_each now paths 0 st.degraded_since w in
      (repaired, record st { degraded_since = seen }, w')
