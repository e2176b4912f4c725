-- ===== src/Stratum/System.antt =====
-- The client as a whole: every stretch between two awaits of any of its tasks as one action, in any order.
use minebtx.Prelude.{ℕ, String, Bool, true, false, Option, none, some, List, [], ◌∷◌}
use minebtx.Prelude.Int.{ℤ}
use minebtx.Py.Result.{Result}
use minebtx.Py.Value.{Value, Fields}
use minebtx.Py.Assoc.{Assoc}
use minebtx.Solver.Challenge.{SolveResult}
use minebtx.Solver.Steps.{Step, step}
use minebtx.Stratum.Job.{Job}
use minebtx.Stratum.Rpc.{begin_call, time_out}
use minebtx.Stratum.Client.{Client}
use minebtx.Stratum.Search.{begin_slice, finish_slice, advance}
use minebtx.Stratum.Submit.{finish_submit}
use minebtx.Stratum.Heal.{heal_finish}
use minebtx.Stratum.Messages.{Host, State, handle_message}
use minebtx.Stratum.Session.{start_window, end_session, on_client, on_subscribed}
pub mod Steps
pub mod Invariant
pub mod Totals

-- The connection opens, its handshake stores the reply to the subscription and starts the watchdog's window,
-- and it ends; a message comes; a request is sent or times out; a slice begins and ends, and the
-- search moves on; a submission ends; a restart of the daemon ends. The solver's part of a slice, and the rest of a
-- restart, are steps of the wrapper, between which any other action may come.
pub data Action : Type 0 where
  opens closes sends : Action
  subscribes : Result Value → Action
  starts : ℕ → Action
  receives : Host → Value → Action
  gives_up : ℕ → Action
  begins : Job → Action
  solves : Step → Action
  ends : Job → ℤ → Result SolveResult → ℕ → Action
  advances : Job → ℤ → Action
  judges : SolveResult → Result Value → ℕ → Action
  restarts : ℕ → Action

unfoldable pub perform : Action → State → State
perform opens s = on_client (λ c. record c { connected = true }) s
perform closes s = on_client end_session s
perform sends s = on_client (λ c. record c { rpc = (begin_call c.connected c.rpc).1 }) s
perform (subscribes reply) s = on_client (λ c. (on_subscribed c reply).1) s
perform (starts now) s = on_client (λ c. start_window c now) s
perform (receives host message) s = (handle_message host message s).1
perform (gives_up id) s = on_client (λ c. record c { rpc = (time_out id c.rpc).1 }) s
perform (begins job) s = on_client (λ c. (begin_slice c job).1) s
perform (solves change) s = on_client (λ c. record c { solver = step change c.solver }) s
perform (ends job start r now) s = on_client (λ c. (finish_slice c job start r now).1) s
perform (advances job next) s = on_client (λ c. (advance c job next).1) s
perform (judges share r now) s = on_client (λ c. finish_submit c share r now) s
perform (restarts now) s = on_client (λ c. heal_finish c now) s

unfoldable pub run : List Action → State → State
unfolding perform
run [] s = s
run (a ∷ actions) s = run actions (perform a s)
