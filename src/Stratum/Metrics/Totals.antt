-- ===== src/Stratum/Metrics/Totals.antt =====
-- What the periodic report counts.
use minebtx.Prelude.{ℕ, ◌+◌, String, ◌≡◌, refl, arith, Bool, true, false, none, some, List}
use minebtx.Py.Result.{Result, ok, err}
use minebtx.Config.{MinerConfig}
use minebtx.Hardware.Gpus.{GpuProbes}
use minebtx.Hardware.Report.{Cohort, Metrics, Readings, collect_runtime_metrics-shares}
use minebtx.Stratum.Client.{new_client}
use minebtx.Stratum.Names.{Store}
use minebtx.Stratum.Metrics.{payload, sent, report_metrics}
use minebtx.Stratum.System.{Action, run}
use minebtx.Stratum.System.Totals.{accepts, rejects, total, run-totals}

sent-ok :
    (b : Bool) (r : Result Metrics) (m : Metrics) → sent b r ≡ some m → (b ≡ true) × (r ≡ ok m)
sent-ok true (ok m') m h = (refl, cc)
sent-ok true (err e) m h = cc
sent-ok false (ok m') m h = cc
sent-ok false (err e) m h = cc

-- A report is only sent by a client that is connected, and its total counts every submission that the pool
-- judged or that raised since the process started, over all sessions, and no cancelled one.
pub report_metrics-total :
    (actions : List Action) (cfg : MinerConfig) (now : ℕ) (names : Store) (session_id : String)
    (cohort : Cohort) (probes : GpuProbes) (readings : Readings) (m : Metrics)
    → report_metrics (run actions (new_client cfg now, names)).0 session_id cohort probes readings
      ≡ some m
    → ((run actions (new_client cfg now, names)).0.connected ≡ true)
      × (m.shares_session_total ≡ total accepts actions + total rejects actions)
unfolding report_metrics payload
report_metrics-total actions cfg now names session_id cohort probes readings m h =
    let c = (run actions (new_client cfg now, names)).0 in
    let (connected, collected) = sent-ok c.connected _ m h in
    let (accepted, rejected) = run-totals actions (new_client cfg now, names) in
    let counted =
      collect_runtime_metrics-shares session_id none
        (c.stats.shares_accepted + c.stats.shares_rejected) cohort probes readings m collected in
    (connected, omega (arith, counted, accepted, rejected))
