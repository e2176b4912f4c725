-- ===== src/Lib.antt =====
-- minebtx: the miner's client, its solver daemon, and its updates.
--
-- The program connects to a mining pool over Stratum, keeps one external solver process, feeds it slices of the
-- nonce space, submits the shares that it finds, watches over it, and updates the solver and itself. All of it is
-- Python under src/dexbtx_miner/, with one script of the solver's build under scripts/. asyncio interleaves its
-- tasks only at an `await`, so that a component is modelled as functions for the stretches between awaits, on one
-- state, and what an await returns is an argument.
--
-- Parts and files:
--   Prelude        shared names, tests on numbers, lists, and integers over the native numbers.
--   Py             what the source uses of Python: exceptions as results, JSON values, dicts, equality of
--                  values, texts, `int(...)`, `float(...)` and hexadecimal formatting; Py/Edit and
--                  Py/Lines are `in`, `replace`, `split`, `strip` and the like; Py/Regex the
--                  expressions the source searches with; Py/Round `round(x, 1)` and means.
--   Config         config.py: MinerConfig, its defaults, fully_qualified_worker. Config/File is
--                  load_yaml_config, and the loop of _build_config over the file's settings.
--   Solver         gbt_solve_wrapper.py. Solver/Env is SolverEnv.to_env; Solver/Challenge the challenge, the
--                  result and the job line; Solver/Record is _result_from_record; Solver/Daemon is
--                  _ensure_daemon, _shutdown_daemon, force_restart and preempt; Solver/Slice is solve_slice
--                  with its two attempts. The daemon's pipe is a list of answers that nobody has read.
--                  These functions take how a start goes as an argument: refused, silent, cancelled, overtaken
--                  by force_restart, or ready, with whether the process still runs. Solver/Steps is the
--                  wrapper's changes between its awaits one by one, for the interleaving with the other tasks,
--                  and Solver/Steps/Runs relates the two views.
--   Stratum        stratum_client.py and canonical_names.py. Stratum/Job is Job; Stratum/Client the state of
--                  StratumClient; Stratum/Rpc is _call and the settling of responses, and Stratum/Rpc/Table
--                  what they promise; Stratum/Notify is _on_notify; Stratum/Messages is
--                  _handle_message, _on_set_difficulty and _on_set_extranonce;
--                  Stratum/Names is _on_set_canonical_name and the cache; Stratum/Search is _solver_loop;
--                  Stratum/Submit is _submit_share; Stratum/Heal is _heal_loop; Stratum/Session is
--                  _session_once, _handshake, _reader_loop and run_forever; Stratum/Handshake is
--                  the report of the solver's settings; Stratum/Metrics is a round of _metrics_loop;
--                  Stratum/System puts the actions of all tasks together, in any order, those of
--                  Solver/Steps among them.
--   Updater        solver_updater.py (Updater/Manifest, Updater/Solver) and wrapper_updater.py
--                  (Updater/Wrapper).
--   Cli            __main__.py: _parse_pool, _build_config, and the cycle of _solver_update_watcher;
--                  Cli/Start is main and _run up to run_forever, with the solver's file at the path
--                  as written, which the wrapper starts, and with `~` expanded, which the check replaces.
--                  Cli/Measured follows a setting from the benchmark's file to the solver's environment.
--   Benchmark      benchmark.py: the reading of run_one, and the ranking of main (Benchmark/Ranking);
--                  Benchmark/Main is default_sweep, sweep and main with its exit codes and the file that it
--                  writes.
--   Hardware       hardware.py. Hardware/Processor is the processor, the memory and the load;
--                  Hardware/Environment the operating system, the container and the cloud;
--                  Hardware/Numa collect_numa_topology; Hardware/Gpus the inventory of the GPUs;
--                  Hardware/Runtime the samples of their utilisation, power, clock and temperature;
--                  Hardware/Report the static and the runtime report.
--   BuildScript    scripts/inject-hip-cmake.py. BuildScript/TopFile and BuildScript/SrcFile are the edits of
--                  the two files of CMake, BuildScript/Runs what whole runs do.
--   Witnesses      the theorems at concrete inputs.
--
-- The client (Stratum) holds the wrapper of the daemon (Solver) as a field: a notify may preempt the daemon, the
-- search asks it, the watchdog restarts it. A session's reader hands each message to Stratum/Messages, which
-- changes the client through Stratum/Rpc, Stratum/Notify and Stratum/Names.
--
-- Choices: a time is a number of milliseconds of the monotonic clock, and a difference that the source takes is
-- written as a sum on the other side. An integer of Python is a ℤ without bound. A float of a JSON document is
-- its decimal; rounding, infinities and NaN are not modelled. Texts from the pool and the solver are JSON values
-- of any type, and an operation on the wrong type gives the exception that Python raises. Exceptions are values
-- of their class, without a message. The only fuel is that of the digits of a number, where the number itself
-- is enough (Py/Hex proves it for hexadecimal digits, Py/Decimals for decimal ones). Runs of the watchdog and of sessions are lists of events.
--
-- The reports on the hardware take what the programs, files and variables of the system answer as arguments.
-- A mean or a rounding is exact and goes half to even. Case and white space are those of ASCII, and the regular
-- expressions are those of the source, searched without backtracking.
--
-- Not modelled: the argument parsers and logging, the printed rows and the text of the banner, the command
-- line of a run of the benchmark, the waits of the metrics task, hardware_summary_string, the file tests of
-- _verify_binary, PyYAML, the digest function, TLS, and the operating system's processes and pipes beyond what
-- the arguments say.
pub mod Prelude
pub mod Py
pub mod Config
pub mod Solver
pub mod Stratum
pub mod Updater
pub mod Cli
pub mod Hardware
pub mod Benchmark
pub mod BuildScript
mod Witnesses
