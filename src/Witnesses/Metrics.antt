-- ===== src/Witnesses/Metrics.antt =====
-- A report of the metrics task in the second session of a client.
use minebtx.Prelude.{◌+◌, ◌≡◌, refl, true, false, none, some, List, [], ◌∷◌}
use minebtx.Py.Result.{ok, err, timeout_error, cancelled}
use minebtx.Py.Value.{bool}
use minebtx.Stratum.Client.{new_client}
use minebtx.Stratum.Submit.{finish_submit}
use minebtx.Stratum.Session.{start_window, end_session}
use minebtx.Stratum.System.{Action, opens, closes, starts, judges, run, perform}
use minebtx.Stratum.System.Totals.{accepts, rejects, total}
use minebtx.Stratum.Metrics.{cohort_of, report_metrics, payload}
use minebtx.Stratum.Metrics.Totals.{report_metrics-total}
use minebtx.Hardware.Processor.{System, cpu_util_pct, ram_gb_used-none}
use minebtx.Hardware.Gpus.{GpuProbes}
use minebtx.Hardware.Report.{Metrics, Readings, collect_runtime_metrics, runtime_gpus}
use minebtx.Witnesses.Data.{rig}
use minebtx.Witnesses.Client.{share}

abbrev two_sessions : List Action
two_sessions =
    opens
    ∷ starts 2_000
    ∷ judges share (ok (bool true)) 9_000
    ∷ closes
    ∷ opens
    ∷ starts 20_000
    ∷ judges share (err timeout_error) 50_000
    ∷ judges share (err cancelled) 60_000
    ∷ []

abbrev probes : GpuProbes
probes = record {
  system = System.linux;
  is_arm64 = false;
  sysctl = none;
  ioreg = none;
  hostname = some "rig";
  smi = none;
  rocminfo = none;
  rocm_versions = [];
  rocm_cards = [];
}

abbrev readings : Readings
readings = record {
  now = 1_780_000_000;
  stat_before = none;
  stat_after = none;
  meminfo = none;
  samples = ([] ∷ []) ∷ [];
}

abbrev sent_report : Metrics
sent_report = record {
  session_id = "5e1f";
  timestamp = 1_780_000_000;
  cpu_util_pct = cpu_util_pct none none;
  ram_gb_used = none;
  gpus = runtime_gpus probes (([] ∷ []) ∷ []);
  solver_nps = none;
  shares_session_total = 2;
  cohort = cohort_of rig "0.4.20" none;
}

reports :
    report_metrics
      (run two_sessions (new_client rig 1_000, none)).0
      "5e1f"
      (cohort_of rig "0.4.20" none)
      probes
      readings
    ≡ some sent_report
unfolding report_metrics payload collect_runtime_metrics run perform finish_submit start_window
    end_session
reports = rw ram_gb_used-none refl

report_metrics-total_example :
    ((run two_sessions (new_client rig 1_000, none)).0.connected ≡ true)
    × (sent_report.shares_session_total ≡ total accepts two_sessions + total rejects two_sessions)
report_metrics-total_example =
    report_metrics-total two_sessions rig 1_000 none "5e1f" (cohort_of rig "0.4.20" none) probes
      readings sent_report reports
