-- ===== src/Daemon/Liveness.antt =====
-- A daemon that ticks is seen to run.
use stardustfs.Prelude.{
  ℕ, zero, suc, true, false, some, ◌+◌, ◌*◌, ◌%◌, ◌==◌, nat_eq, eq_iff, ltb, ◌≡◌, ◌≤◌, ◌≢◌, refl,
  arith, Bool-cases, inl, inr,
}
use stardustfs.Daemon.{written, Files, read_status, start, serve, signal_stop}

-- The control file holds a heartbeat that is at most as many ticks old as the last multiple of five.
serve_beat :
    (clock : ℕ → ℕ) (f : Files) (tick : ℕ)
    → ((k : ℕ) → clock (suc k) ≤ clock k + 2)
    → (beat : ℕ) × ((serve clock f tick).control ≡ some (written (clock 0) beat))
      × (clock tick ≤ beat + 2 * (tick % 5))
unfolding serve start
serve_beat clock f zero steady = (clock 0, refl, omega arith)
serve_beat clock f (suc tick) steady =
    let (beat, at, young) = serve_beat clock f tick steady in
    elim (Bool-cases ((suc tick) % 5 == 0)) [
      | inl due ↦ (clock (suc tick), rw (serve, due) refl, omega arith)
      | inr not_due ↦
          let counts : (suc tick) % 5 ≢ 0 = λ e. ground (arith, eq_iff ((suc tick) % 5) 0) in
          let more : (suc tick) % 5 ≡ tick % 5 + 1 = omega arith in
          (beat, rw (serve, not_due) at, omega (arith, steady tick))
    ]

-- If no tick takes more than two seconds, then after any number of ticks the daemon that serves is
-- reported as running, and not as stale; a stop that is asked for is signalled.
pub read_status-serve :
    (clock : ℕ → ℕ) (f : Files) (tick : ℕ)
    → ((k : ℕ) → clock (suc k) ≤ clock k + 2)
    → (read_status (clock tick) (serve clock f tick) ≡ record { running = true; stale = false })
      × ((signal_stop (serve clock f tick)).0 ≡ true)
unfolding read_status signal_stop
read_status-serve clock f tick steady =
    let (beat, at, young) = serve_beat clock f tick steady in
    let fresh : ltb (clock tick) (beat + 15) ≡ true = ground arith in
    (rw (at, fresh) refl, rw at refl)
