-- ===== src/Stratum/Metrics.antt =====
-- `_metrics_loop`: the periodic report of a session. It changes nothing of the client.
-- The solver's wrapper has no attribute `last_observed_nps`, so that the report's rate is `None`.
use minebtx.Prelude.{◌+◌, ℕ, String, Bool, true, false, Option, none, some, if◌then◌else◌}
use minebtx.Py.Result.{Error, Result, ok, err}
use minebtx.Hardware.Gpus.{GpuProbes}
use minebtx.Hardware.Report.{Cohort, Metrics, Readings, collect_runtime_metrics}
use minebtx.Config.{MinerConfig}
use minebtx.Stratum.Client.{Client}
pub mod Totals

-- The cohort that the client keeps from its start, on the version and the solver's digest.
abbrev pub cohort_of : MinerConfig → String → Option String → Cohort
cohort_of cfg version sha = record {
  wrapper_version = some version;
  solver_sha256 = sha;
  solver_backend = some cfg.solver_backend;
}

-- The report, in a session and with what the machine shows.
unfoldable pub payload : Client → String → Cohort → GpuProbes → Readings → Result Metrics
payload c session_id cohort probes readings =
    collect_runtime_metrics session_id none (c.stats.shares_accepted + c.stats.shares_rejected)
      cohort probes readings

-- Whatever goes wrong is logged, and nothing is sent then.
abbrev pub sent : Bool → Result Metrics → Option Metrics
sent connected (err e) = none
sent connected (ok m) = if connected then some m else none

-- The message of one round of the loop, of a task that is not cancelled.
unfoldable pub report_metrics : Client → String → Cohort → GpuProbes → Readings → Option Metrics
unfolding payload
report_metrics c session_id cohort probes readings =
    sent c.connected (payload c session_id cohort probes readings)
