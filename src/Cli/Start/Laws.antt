-- ===== src/Cli/Start/Laws.antt =====
-- What a process that starts to mine has, and that starting again comes to an end.
use minebtx.Prelude.{String, ◌≡◌, ap, sym, ◌∙◌, Bool, Option, none, some, List}
use minebtx.Py.Result.{Result, ok, err, Error}
use minebtx.Py.Assoc.{Assoc}
use minebtx.Config.{MinerConfig}
use minebtx.Updater.Solver.{Binary}
use minebtx.Updater.Wrapper.{Next, stays, restarts, maybe_self_upgrade}
use minebtx.Updater.Wrapper.Laws.{maybe_self_upgrade-once}
use minebtx.Cli.Start.{
  Launch, replaced, subcommand, after_check, run, run_configured, configured, dispatch,
  after_upgrade, main,
}

-- A process that got past its own upgrade is not replaced.
after_check-stays :
    (l : Launch) (cfg : MinerConfig) (p : Result Bool × Binary) (next : Assoc String)
    → ¬ (after_check l cfg p ≡ replaced next)
after_check-stays l cfg (ok updated, binary) next h = cc
after_check-stays l cfg (err Error.update_required, binary) next h = cc
after_check-stays l cfg (err e, binary) next h = cc

dispatch-stays :
    (l : Launch) (env next : Assoc String) (o : Option (List String))
    → ¬ (dispatch l env o ≡ replaced next)
unfolding run
dispatch-stays l env next (some rest) h = cc
dispatch-stays l env next none h = by_settings (configured l) h
  where
    by_settings : (r : Result MinerConfig) → ¬ (run_configured l env r ≡ replaced next)
    by_settings (err e) h = cc
    by_settings (ok cfg) h = after_check-stays l cfg _ next h

after_upgrade-restarts :
    (l : Launch) (next : Assoc String) (p : Result Next × Assoc String)
    → after_upgrade l p ≡ replaced next
    → p.0 ≡ ok (restarts next)
after_upgrade-restarts l next (err e, env) h = cc
after_upgrade-restarts l next (ok (restarts other), env) h = cc
after_upgrade-restarts l next (ok stays, env) h =
    absurd (dispatch-stays l env next (subcommand l.argv) h)

-- The process that is started in the place of another one is not replaced at its own start, whatever it
-- meets then, so that starting comes to an end.
pub main-settles :
    (l l' : Launch) (env next next' : Assoc String)
    → main l env ≡ replaced next
    → ¬ (main l' next ≡ replaced next')
unfolding main
main-settles l l' env next next' h again =
    let restarted = after_upgrade-restarts l next (maybe_self_upgrade l.world l.version env) h in
    let first = maybe_self_upgrade-once l.world l'.world l.version l'.version env next restarted in
    dispatch-stays l' _ next' (subcommand l'.argv) (ap (after_upgrade l') (sym first) ∙ again)
