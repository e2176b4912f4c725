-- ===== src/Witnesses/Client.antt =====
-- Requests, submissions, messages, restarts and sessions on concrete inputs.
use minebtx.Prelude.{
  String, ◌≡◌, ◌⊎◌, refl, arith, true, false, ◌&&◌, none, some, List, [], ◌∷◌, get_elem?, length,
  ◌==◌, str_eq, if◌then◌else◌,
}
use minebtx.Prelude.Int.{pos}
use minebtx.Py.Result.{ok, err, runtime_error, connection_error, key_error, timeout_error}
use minebtx.Py.Value.{
  Fields, Decimal, null, bool, int, str, list, dict, nil, cons, end, field, find, find_or,
}
use minebtx.Py.Text.{codes}
use minebtx.Py.Number.{digits, to_int}
use minebtx.Config.{fully_qualified_worker}
use minebtx.Solver.Challenge.{SolveResult}
use minebtx.Stratum.Rpc.{Rpc, fresh, waits, outcome, begin_call, on_response}
use minebtx.Stratum.Rpc.Invariant.{
  IsValid, reply, fresh-IsValid, begin_call-IsValid, on_response-reply,
}
use minebtx.Stratum.Rpc.Table
use minebtx.Stratum.Rpc.Table.{calls, answers, fresh_table, specified, performed, all, status_of}
use minebtx.Stratum.Rpc.Table.Refinement.{run-Refines}
use minebtx.Stratum.Client.{Client, new_client}
use minebtx.Stratum.Submit.{submit_request}
use minebtx.Stratum.Submit.Laws.{sent_nonce, submit_request-nonce}
use minebtx.Stratum.Names.{Disk, load, entry, on_set_canonical_name}
use minebtx.Stratum.Names.Laws.{on_set_canonical_name-find, on_set_canonical_name-nameless}
use minebtx.Stratum.Messages.{Host, handle_message}
use minebtx.Stratum.Messages.Routes.{frame, handle_message-IsValid}
use minebtx.Py.Assoc.{Assoc, lookup}
use minebtx.Stratum.Handshake.{reported_env, add_missing}
use minebtx.Stratum.Heal.{
  Event, wakes, restarted, submitted, solved, reconnected, heals, heal_due, is_desynced, is_hung,
}
use minebtx.Stratum.Heal.Runs.{Spaced, heal_due-late, heals-Spaced, heals-grace}
use minebtx.Stratum.Session.{Script, Incoming, Closing, run_forever}
use minebtx.Stratum.Session.Backoff.{doubled, run_forever-wait}
use minebtx.Stratum.System.{
  Action, opens, closes, sends, subscribes, starts, receives, gives_up, begins, solves, judges,
  restarts, run,
}
use minebtx.Solver.Steps.{spawned, signalled, stopped}
use minebtx.Stratum.System.Steps.{IsSound}
use minebtx.Stratum.System.Invariant.{run-IsSound}
use minebtx.Witnesses.Data.{
  rig, mainnet, ready_line, job_on, notify_params, result_with, fresh_client,
}

abbrev one_call : Rpc
one_call = record { next_id = 2; pending = 1 ∷ []; settled = [] }

one_call-IsValid : IsValid one_call
unfolding begin_call
one_call-IsValid = begin_call-IsValid true fresh fresh-IsValid

abbrev pub accepted_reply : Fields
accepted_reply = field "id" (int (pos 1)) (field "result" (bool true) end)

-- A request is answered, a late second answer comes, and another request is left behind by its session.
abbrev traffic : List Table.Event
traffic =
    calls true
    ∷ answers accepted_reply (int (pos 1))
    ∷ answers accepted_reply (int (pos 1))
    ∷ calls true
    ∷ Table.Event.closes
    ∷ []

run-Refines_example :
    status_of (all performed traffic fresh) 2 ≡ (all specified traffic fresh_table).status 2
run-Refines_example = run-Refines traffic 2

on_response-reply_example :
    reply 1 (on_response accepted_reply (int (pos 1)) one_call).1.settled ≡ (
      if (1 == 1) && waits 1 one_call.pending
      then some (outcome accepted_reply)
      else reply 1 one_call.settled)
on_response-reply_example =
    on_response-reply accepted_reply (int (pos 1)) 1 one_call one_call-IsValid refl 1

abbrev pub share : SolveResult
share = result_with none true none

submit_request-nonce_example :
    (text : String) × (sent_nonce (submit_request fresh_client (job_on "aa") share)
      ≡ some (str text))
    × (length (codes text) ≡ 16)
    × (digits 16 0 false (codes text) ≡ some 7)
unfolding fully_qualified_worker
submit_request-nonce_example =
    submit_request-nonce fresh_client (job_on "aa") share 7 refl refl (omega arith)

abbrev float_text : Decimal → String
float_text d = "1.5"

abbrev assignment : Fields
assignment = field "gpu_uuid" (str "GPU-1") (
    field "canonical_name" (str "5090-ALPHA-1") (field "assigned_at" (int (pos 1_779_912_345)) end))

on_set_canonical_name-find_example :
    ((on_set_canonical_name float_text Disk.written 5 (dict assignment) none).0 ≡ ok tt)
    × (find "GPU-1"
          (load (on_set_canonical_name float_text Disk.written 5 (dict assignment) none).1)
        ≡ (if str_eq "GPU-1" "GPU-1"
            then some (
                entry
                  (str "5090-ALPHA-1")
                  (find_or "operator_label" null assignment)
                  (pos 1_779_912_345))
            else find "GPU-1" (load none)))
unfolding to_int
on_set_canonical_name-find_example =
    on_set_canonical_name-find float_text 5 assignment none refl refl refl refl refl "GPU-1"

abbrev nameless : Fields
nameless = field "gpu_uuid" (str "GPU-1") end

on_set_canonical_name-nameless_example :
    on_set_canonical_name float_text Disk.written 5 (list (cons (dict nameless) nil)) none
    ≡ (err key_error, none)
on_set_canonical_name-nameless_example =
    on_set_canonical_name-nameless float_text 5 nameless none Disk.written refl

abbrev pub host : Host
host = record { float_text = float_text; disk = Disk.written; now = 5; delivers = true }

abbrev waiting_client : Client
waiting_client = record fresh_client { rpc = one_call }

handle_message-IsValid_example :
    (frame (handle_message host (dict accepted_reply) (waiting_client, none)).1.0
      ≡ frame waiting_client)
    × IsValid (handle_message host (dict accepted_reply) (waiting_client, none)).1.0.rpc
handle_message-IsValid_example =
    handle_message-IsValid host (dict accepted_reply) (waiting_client, none) one_call-IsValid

abbrev notify_with_id : Fields
notify_with_id =
    field "id" (int (pos 1))
      (field "method" (str "mining.notify") (field "params" (notify_params "aa" true) end))

heal_due-late_example :
    heal_due fresh_client 2_000_000
    ≡ (if is_desynced fresh_client then true else is_hung fresh_client 2_000_000)
heal_due-late_example = heal_due-late fresh_client 2_000_000 (omega arith)

abbrev troubled : List Event
troubled = wakes 400_000 ∷ restarted ∷ wakes 410_000 ∷ wakes 1_100_000 ∷ restarted ∷ []

heals-Spaced_example :
    Spaced fresh_client.cfg.heal_cooldown_secs fresh_client.watch.last_heal_at
      (heals troubled (fresh_client, none))
heals-Spaced_example = heals-Spaced troubled fresh_client

abbrev healthy : List Event
healthy =
    submitted share (ok (bool true)) 410_000 ∷ wakes 500_000 ∷ solved 510_000 ∷ wakes 515_000 ∷ []

heals-grace_example : heals (reconnected 400_000 ∷ healthy) (fresh_client, some 399_000) ≡ []
heals-grace_example = heals-grace healthy fresh_client 400_000 (some 399_000) (omega arith) refl

abbrev refused_session : Script
refused_session = record {
  opening = err connection_error;
  before_subscribed = [];
  subscribed = err runtime_error;
  before_authorized = [];
  authorized = err runtime_error;
  started_at = 0;
  lines = [];
  closing = Closing.end_of_input;
}

abbrev long_session : Script
long_session = record {
  opening = ok tt;
  before_subscribed = [];
  subscribed = ok (list (cons null (cons (str "a4") (cons (int (pos 4)) nil))));
  before_authorized = [];
  authorized = ok (bool true);
  started_at = 5_000;
  lines = Incoming.blank ∷ Incoming.message host (dict notify_with_id) ∷ [];
  closing = Closing.end_of_input;
}

run_forever-wait_example :
    (get_elem? (run_forever (refused_session ∷ long_session ∷ []) (fresh_client, none)) 1 ≡ none)
    ⊎ (get_elem? (run_forever (refused_session ∷ long_session ∷ []) (fresh_client, none)) 1
        ≡ some (some (doubled rig.reconnect_max_s rig.reconnect_initial_s 1)))
run_forever-wait_example =
    run_forever-wait (refused_session ∷ long_session ∷ []) (fresh_client, none) 1

abbrev day : List Action
day =
    opens
    ∷ sends
    ∷ receives host (dict accepted_reply)
    ∷ subscribes (ok (bool true))
    ∷ starts 2_000
    ∷ receives host (dict notify_with_id)
    ∷ begins (job_on "aa")
    ∷ solves (spawned [] mainnet)
    ∷ solves stopped
    ∷ solves (signalled mainnet ready_line)
    ∷ judges share (err timeout_error) 9_000
    ∷ restarts 400_000
    ∷ gives_up 1
    ∷ closes
    ∷ []

run-IsSound_example : IsSound (run day (new_client rig 1_000, none)).0
run-IsSound_example = run-IsSound day rig 1_000 none

abbrev shell : Assoc String
shell =
    ("BTX_MATMUL_BACKEND", "metal") ∷ ("BTX_MATMUL_CUDA_POOL_SLOTS", "4") ∷ ("HOME", "/root") ∷ []

reports_slots : lookup "BTX_MATMUL_CUDA_POOL_SLOTS" (reported_env rig shell) ≡ some (str "4")
unfolding reported_env add_missing
reports_slots = refl
