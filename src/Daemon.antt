-- ===== src/Daemon.antt =====
-- stardustlib/daemon.py: the control file with its heartbeats, the stop file and the loop of `serve`.
-- The times are whole seconds; the control file is none where it is missing, and `damaged` where it
-- cannot be read. Signals and the clean-up are left out.
pub mod Liveness
use stardustfs.Prelude.{
  ℕ, zero, suc, Bool, true, false, Option, none, some, ◌+◌, ◌-◌, ◌%◌, ◌==◌, nat_eq, if◌then◌else◌,
  ltb,
}

pub data Control : Type 0 where
  damaged : Control
  written : ℕ → ℕ → Control

-- The two files of a daemon.
pub record Files : Type 0 where
  pub control : Option Control
  pub stop : Bool

pub record Status : Type 0 where
  pub running : Bool
  pub stale : Bool

abbrev pub heartbeat_every_ticks : ℕ
heartbeat_every_ticks = 5

abbrev pub stale_seconds : ℕ
stale_seconds = 15

unfoldable pub read_status : ℕ → Files → Status
read_status now f = elim f.control [
  | none ↦ record { running = false; stale = false }
  | some c ↦ elim c [
    | damaged ↦ record { running = false; stale = true }
    | written started beat ↦
        let running = ltb now (beat + stale_seconds) in
        record { running = running; stale = if running then false else true }
  ]
]

-- Whether the signal is given, and the files after it.
unfoldable pub signal_stop : Files → Bool × Files
signal_stop f = elim f.control [ none ↦ (false, f) | some c ↦ (true, record f { stop = true }) ]

-- The start of `serve`: an old stop file is removed.
unfoldable pub start : ℕ → Files → Files
start now f = record { control = some (written now now); stop = false }

-- `serve` after its ticks: `clock k` is the time after the k-th, and no stop is asked for.
unfoldable pub serve : (ℕ → ℕ) → Files → ℕ → Files
unfolding start
serve clock f zero = start (clock 0) f
serve clock f (suc tick) =
    let before = serve clock f tick in
    if (suc tick) % heartbeat_every_ticks == 0
    then record before { control = some (written (clock 0) (clock (suc tick))) }
    else before

-- The end of `serve` removes both files.
unfoldable pub finish : Files → Files
finish f = record { control = none; stop = false }
