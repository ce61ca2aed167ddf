-- ===== src/Lib.antt =====
-- zerocool, the Python part: offline simulation and replay of the cache of experts.
--
-- The program runs a large language model whose experts stay on disk; a cache of slots holds
-- those in use. The native engine (C++ and Metal) is not modelled. Its Python scripts replay
-- recorded accesses: cache_simulation.py compares three replacement policies over a fixed order
-- of accesses, block_cache_replay.py replays the engine's own acquisitions with their leases,
-- horizon_cache_replay.py says which forwards a capture must hold, and decode_timeline.py splits
-- the time of a token into buckets.
--
-- Prelude.antt and its children hold the shared names: Boolean tests, lists over the native
-- numbers, and Result for code that may raise. Dict.antt is Python's dict and OrderedDict as an
-- association list in order of insertion.
--
-- Simulation.antt and below: scripts/qwen/cache_simulation.py. Clock.antt is the class Clock
-- (access is Clock.access; sweep is its while, install what follows a choice of slot),
-- Segmented.antt is SegmentedLRU (access, with demote and make_room for its two inner steps),
-- Belady.antt is Belady (belady is __init__, next_uses its loop, access is access, evict its
-- while True). The modules below each prove; Tests holds runs and the theorems at concrete
-- states.
--
-- Replay.antt and below: scripts/qwen/block_cache_replay.py. Replay/Cache.antt is the class Cache
-- (acquire, lease and pins) under both of its policies; scan is the for over the hand.
-- Replay/Head.antt is the checks of decode on the head of a trace; Replay/Coverage.antt is its
-- check of the expected forwards; Replay/Events.antt and Replay/State.antt are its events and its
-- variables, and Replay/Decode.antt its event loop (one function for each branch; on_layer is in
-- Replay/Layers.antt, on_snapshot and Cache.state in Replay/Snapshots.antt) up to the comparison
-- with the native report. Replay/Simulate.antt is simulate and curves. simulate calls the same
-- Cache as decode, without the kind of an acquisition.
--
-- Horizon.antt: patterns of scripts/qwen/horizon_cache_replay.py. The lengths of the prompt and
-- the continuation stand for the two token lists. Horizon/Decode is its decode, which hands a
-- capture on to Replay/Head and Replay/Decode, and Horizon/Summary its summarize, which simulates
-- the capture's requests (Replay/Simulate).
--
-- Timeline.antt: partition of scripts/qwen/decode_timeline.py, with collect and walk for its two
-- loops; the count of active intervals of a kind is kept as the list of its changes. Groups,
-- Experts and Summary are summarize, over its command groups, expert records and samples; what
-- Python does with floats, and with values that are not natural numbers, is the record Clock.
--
-- Routes.antt and below: route_segments of scripts/qwen/cache_simulation.py. Routes/Pass.antt
-- checks a row and makes a pass of it, Routes/Windows.antt joins passes to windows and segments,
-- Routes/Loop.antt is the loop over the rows and the report. Simulation/Counts.antt is counts,
-- which runs the three policies on the segments; Simulation/Counts/Serves.antt is the interface
-- that the policies fill. Simulation/Curve.antt is cache_curve from its parsed source on, which
-- runs route_segments and then counts at each budget. Json.antt is the type of the values that
-- json.loads gives, with subscripts, get and ==.
--
-- Trace.antt and below: decode of scripts/qwen/route_trace.py, the engine's trace from which the
-- rows of route_segments come. Trace/State.antt holds its variables, Trace/Events.antt one
-- function for each event, Trace/Decode.antt the loop, the lines and the report. A request and a
-- forward keep what was checked of their details beside all of them. The parameter parse is the
-- json module's reading of a line. Trace/Keeps.antt carries a predicate through every event;
-- Committed.antt says what the commits make up.
--
-- Scratch.antt and below: lifetime_proof of scripts/qwen/q4_scratch_lifetime.py, which audits the
-- recorded arenas of temporary buffers over 48 passes. Scratch/Arena.antt is scratch_snapshot and
-- what a scope is to hold, Scratch/Passes.antt the loop over the passes of an arm,
-- Scratch/Lifetime.antt the loops over arms and pairs. The truth of a float, of which only the
-- text is kept, is a parameter. Json/Equal.antt proves what == of dicts says of their entries.
--
-- Draft.antt and below: the checks that scripts/qwen/perfect_draft.py makes of a recorded block
-- verification. Draft/Work.antt is configuration, valid_work and check_prime_reference,
-- Draft/Memory.antt the part of memory_observation about processes, Draft/State.antt check_state
-- and check_routes, Draft/Compare.antt compare, with a record for what observe gives.
-- Draft/Probe, Draft/Blocks, Draft/Execution and Draft/Observe are observe, from the scope of the
-- report over the loop on its blocks to the answer; its configs()[0], which a JSON file holds, is
-- an argument.
--
-- Arrivals.antt and below: disk_observation of scripts/qwen/q4_read_arrivals.py, the device
-- counters around an arm; trace_batches, in Events (the nine times of an event), Commands (the
-- events by their submission) and Batches; and shared_trace in Shared, where what the host makes
-- of a float time is the record Times.
--
-- Diagnostic.antt and below: analyze_memory of scripts/qwen/request_diagnostic_memory.py, and
-- analyze_steps of diagnose_decode_startup.py that it calls first. What the host does with
-- floats, of which the model of JSON keeps the text, is the record Floats of Json/Numbers.antt.
--
-- Capture.antt and below: validate_capture of scripts/qwen/capture_routes.py, which takes the
-- report of decode (Trace.Decode) and the report of the program; Machine has fixed_sampling of
-- benchmark_exact.py and check_machine of selector_qualification.py, Configuration has
-- check_configuration of qualify_exact_sessions.py, Requests and Validate the loop over the
-- requests; Phases is validate_phase_memory of benchmark_exact.py, Sessions is compare and
-- check_prime of qualify_exact_sessions.py, and Workload is append_tokens of capture_routes.py
-- and workloads of benchmark_exact.py. Rows, Benchmark and Exact are validate of
-- benchmark_exact.py, with its dict expected, which grows from report to report, passed on as a
-- state. What the host does with a float or a file is the record Host.
--
-- JSON keeps a float as its text, and a float equals only a float of the same text; where the
-- code compares a number that may be a float, a record of functions says the answer.
--
-- Exceptions are values of Result; a loop on fuel answers diverged where the fuel runs out, and
-- each theorem that gives an ok result shows that it does not. The fuel is the number of slots
-- and one more for sweep, the entries of the heap and one more for evict, the protected keys and
-- one more for demote of the replay cache, the tokens and one more for patterns. heapq is taken
-- as a list from which the least pair is taken, since the order of its pairs is total. A Python
-- -1 for no slot or no key is none. The events are those that json.loads gives, as data of their
-- shape; json.dumps, hashlib and struct are functions that a Capture holds, so the theorems hold
-- whatever they return. Of the fields of a snapshot of the cache those that are constant in the
-- source are left out. The fraction of hits, a float, is left out; where its divisor is zero the
-- model raises zero_division_error.
--
-- Not modelled: the engine, files, hashes, the reading of JSON, and the experiment drivers;
-- PROJECT.json lists every part.
pub mod Prelude
pub mod Dict
pub mod Json
pub mod Simulation
pub mod Replay
pub mod Horizon
pub mod Timeline
pub mod Routes
pub mod Trace
pub mod Scratch
pub mod Draft
pub mod Arrivals
pub mod Capture
pub mod Diagnostic
