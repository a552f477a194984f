-- ===== src/Scheduler/Grace.antt =====
-- When the scheduler repairs a file, and when a backlog of missing files stops the backups.
use stardustfs.Prelude.{
  ℕ, Text, Bool, true, false, some, List, [], ◌∷◌, ◌++◌, ◌+◌, ◌==◌, text_eq, Result, ok, err, ltb,
  not, filter, take, codes, All, ◌≡◌, ◌<◌, refl, arith, subst, Bool-cases, Option-cases, inl, inr,
}
use stardustfs.Network.{Run}
use stardustfs.Table.{find_row}
use stardustfs.Scheduler.{
  Manager, Observation, Scheduler, Settings, path_of, contains, set_default, forget, back_up_each,
  run_backup_cycle, after_health, heal_each, run_heal_cycle,
}

module _ {W : Type 0} (settings : Settings) (manager : Manager W) (other : Text → Run W (Unit {0}))
    (now : ℕ) where
  -- No observation is as old as the grace period.
  abbrev IsYoung : List Observation → Type 0
  IsYoung seen = All (λ o. now < o.since + settings.heal_grace) seen

  IsYoung-forget :
      (path : Text) (seen : List Observation) → IsYoung seen → IsYoung (forget path seen)
  unfolding forget
  IsYoung-forget path [] young = tt
  IsYoung-forget path (o ∷ seen) (first, rest) = ground (arith, IsYoung-forget path seen rest)

  IsYoung-append :
      (path : Text) (seen : List Observation)
      → 0 < settings.heal_grace
      → IsYoung seen
      → IsYoung (seen ++ record { path = path; since = now } ∷ [])
  IsYoung-append path [] positive young = (omega arith, tt)
  IsYoung-append path (o ∷ seen) positive (first, rest) =
      (first, IsYoung-append path seen positive rest)

  find_row-IsYoung :
      (path : Text) (seen : List Observation) (o : Observation)
      → IsYoung seen
      → find_row path_of path seen ≡ some o
      → now < o.since + settings.heal_grace
  unfolding find_row
  find_row-IsYoung path [] o young found = ground arith
  find_row-IsYoung path (x ∷ seen) o (first, rest) found = elim (Bool-cases (x.path == path)) [
    | inl here ↦
        let same : x ≡ o = ground arith in
        subst (λ y. now < y.since + settings.heal_grace) same first
    | inr there ↦ find_row-IsYoung path seen o rest (ground arith)
  ]

  -- The observation that counts is young, and so are those that are kept.
  set_default-IsYoung :
      (path : Text) (seen : List Observation)
      → 0 < settings.heal_grace
      → IsYoung seen
      → (now < (set_default path now seen).0 + settings.heal_grace)
        × IsYoung (set_default path now seen).1
  unfolding set_default
  set_default-IsYoung path seen positive young = elim (Option-cases (find_row path_of path seen)) [
    | inl new ↦ rw (new, set_default) (omega arith, IsYoung-append path seen positive young)
    | inr (o, known) ↦ rw (known, set_default) (find_row-IsYoung path seen o young known, young)
  ]

  after_health-IsYoung :
      (path : Text) (repaired : ℕ) (seen : List Observation) (outcome : Result Bool × W)
      → 0 < settings.heal_grace
      → IsYoung seen
      → (seen' : List Observation) × IsYoung seen'
        × (after_health settings manager now path (repaired, seen) outcome
            ≡ (repaired, seen', outcome.1))
        × (after_health settings
              (record manager { ensure_replicas = other })
              now
              path
              (repaired, seen)
              outcome
            ≡ (repaired, seen', outcome.1))
  unfolding after_health
  after_health-IsYoung path repaired seen (err e, w) positive young = (seen, young, refl, refl)
  after_health-IsYoung path repaired seen (ok false, w) positive young =
      (forget path seen, IsYoung-forget path seen young, refl, refl)
  after_health-IsYoung path repaired seen (ok true, w) positive young =
      let (waits, kept) = set_default-IsYoung path seen positive young in
      let early : ltb now ((set_default path now seen).0 + settings.heal_grace) ≡ true =
        ground arith in
      ((set_default path now seen).1, kept, rw early refl, rw early refl)

  heal_each-IsYoung :
      (paths : List Text) (repaired : ℕ) (seen : List Observation) (w : W)
      → 0 < settings.heal_grace
      → IsYoung seen
      → (seen' : List Observation) × (w' : W) × IsYoung seen'
        × (heal_each settings manager now paths repaired seen w ≡ (repaired, seen', w'))
        × (heal_each settings (record manager { ensure_replicas = other }) now paths repaired seen w
            ≡ (repaired, seen', w'))
  unfolding heal_each
  heal_each-IsYoung [] repaired seen w positive young = (seen, w, young, refl, refl)
  heal_each-IsYoung (path ∷ paths) repaired seen w positive young =
      elim (Bool-cases (manager.is_stopped w)) [
        | inl stopped ↦ (seen, w, young, rw (stopped, heal_each) refl, rw (stopped, heal_each) refl)
        | inr running ↦
            let (seen', young', step, step') =
              after_health-IsYoung path repaired seen (manager.is_degraded path w) positive young in
            let (last, w', still, rest, rest') =
              heal_each-IsYoung paths repaired seen' (manager.is_degraded path w).1 positive
                young' in
            (
              last,
              w',
              still,
              rw (running, step, heal_each) rest,
              rw (running, step', heal_each) rest',
            )
      ]

  -- While no file has been seen degraded for the whole grace period, a heal cycle repairs nothing and
  -- never asks for a repair: it does the same with any other `ensure_replicas`; and the observations
  -- after it are no older.
  pub run_heal_cycle-IsYoung :
      (st : Scheduler) (w : W)
      → 0 < settings.heal_grace
      → IsYoung st.degraded_since
      → (st' : Scheduler) × (w' : W) × (run_heal_cycle settings manager now st w ≡ (0, st', w'))
        × (run_heal_cycle settings (record manager { ensure_replicas = other }) now st w
            ≡ (0, st', w'))
        × IsYoung st'.degraded_since
  unfolding run_heal_cycle
  run_heal_cycle-IsYoung st w positive young =
      let paths = take settings.max_files (manager.paths_with (codes "replicated" ∷ []) w) in
      let (last, w', still, same, same') =
        heal_each-IsYoung paths 0 st.degraded_since w positive young in
      (record st { degraded_since = last }, w', rw same refl, rw same' refl, still)

module _ {W : Type 0} (settings : Settings) (manager : Manager W) where
  filter_skipped :
      (st : Scheduler) (paths : List Text)
      → All (λ p. contains p st.skip_backup ≡ true) paths
      → filter (λ p. not (contains p st.skip_backup)) paths ≡ []
  filter_skipped st [] h = refl
  filter_skipped st (p ∷ paths) (here, there) = ground (arith, filter_skipped st paths there)

  -- Where the first `max_files` paths that wait for a backup are all known to be missing here, a backup
  -- cycle does nothing and leaves everything as it is, whatever files wait behind them.
  pub run_backup_cycle_starved :
      (st : Scheduler) (w : W)
      → All
          (λ p. contains p st.skip_backup ≡ true)
          (take settings.max_files (manager.paths_with (codes "none" ∷ codes "pending" ∷ []) w))
      → run_backup_cycle settings manager st w ≡ (0, st, w)
  unfolding run_backup_cycle back_up_each
  run_backup_cycle_starved st w skipped =
      rw
        (filter_skipped st
          (take settings.max_files (manager.paths_with (codes "none" ∷ codes "pending" ∷ []) w))
          skipped)
        refl
