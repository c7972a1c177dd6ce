-- ===== src/Lib.antt =====
-- Models of the Python tools of AstraSim-FSW, a flight-software simulator, with the theorems that
-- make them correct.
--
-- The tools command the simulator, listen to it, run its scenarios and check its evidence:
--   tools/send_command.py sends command packets, which fsw/src/command_packet.cpp reads;
--   tools/telemetry_receiver.py and tools/telemetry_dashboard.py decode the telemetry that
--   fsw/src/telemetry_packet.cpp writes; tools/generate_command_fuzz_corpus.py makes seed packets;
--   tools/run_scenario.py sends the commands of a scenario through send_command.py, listens with
--   the receiver's decoder and writes a report; tools/check_requirements.py, with
--   tools/traceability_baseline.py, reads requirements, matrix, reports and reviewed digests;
--   tools/summarize_lcov.py sums up coverage; tools/assurance_assistant.py grants reads and tool
--   runs, and tools/run_assurance_assistant_eval.py measures its decisions on frozen cases;
--   tools/repository_state.py tells changed source from changed evidence, for
--   tools/check_source_cleanliness.py; tools/validate_timing_evidence.py checks timing evidence;
--   tools/generate_assurance_assistant_eval.py writes those frozen cases, and
--   tools/update_traceability_baseline.py the reviewed digests;
--   tools/run_controlled_mutation.py breaks the checksum guard and asks whether the tests notice;
--   tools/run_fdir_campaign.py and tools/run_monte_carlo.py generate scenarios and start
--   run_scenario.py on each; tools/run_all_scenarios.py starts the builds, scenarios, campaigns
--   and checks in their order, and tools/run_astra_os_assurance.py that runner and the sanitizer
--   stages, records what it did, and has tools/generate_baseline_manifest.py write the manifest;
--   tools/check_protocol_conformance.py compares the C++ headers and the tables of the tools with
--   the manifest of the protocol.
--
-- Files:
--   Base: texts, dictionaries, JSON values, exceptions as results, sorting, int() and the bits.
--   Protocol/Crc, Protocol/Pack: the checksum and the little-endian fields that all tools share.
--   Protocol/Command: send_command.py. Protocol/Telemetry: telemetry_receiver.py.
--   Protocol/Dashboard: telemetry_dashboard.py. Protocol/Corpus: generate_command_fuzz_corpus.py.
--   Protocol/Flight: deserialize_command_packet and serialize_telemetry_packet of the C++ code.
--   Lcov, Lcov/Reports: summarize_lcov.py.
--   Assistant (load_policy to decide_request), Assistant/Raising (decide_request where resolving a
--     path raises), Assistant/Run (execution to main): assurance_assistant.py.
--   Assistant/Evaluation: run_assurance_assistant_eval.py.
--     Assistant/Frozen and its Targets: generate_assurance_assistant_eval.py.
--   Scenario (timestamps, listener, matching, wait), Scenario/Run (steps), Scenario/Server
--     (arguments), Scenario/Main (checks, report, exit code): run_scenario.py.
--   Requirements (document and matrix rows), Requirements/Problems, Requirements/Report
--     (dispositions, counts, exit code), Requirements/Read (registered tests, scenario files,
--     evidence reports) and Requirements/Main (lines of the report): check_requirements.py;
--     Requirements/Baseline: its reviewed_baseline_problems, and traceability_baseline.py.
--   Workflow: the processes that the two runners start. Workflow/AllScenarios and its Main:
--     run_all_scenarios.py. Workflow/Assurance and its Main: run_astra_os_assurance.py.
--   Campaign: what the campaigns share. Campaign/Fdir: run_fdir_campaign.py. Campaign/MonteCarlo
--     (cases) and its Run (trials, report, exit code): run_monte_carlo.py. Campaign/Ready says
--     when run_scenario.py can carry out a scenario.
--   Conformance and its Checks: check_protocol_conformance.py.
--   Provenance and its Main: generate_baseline_manifest.py.
--   Requirements/Update: update_traceability_baseline.py. Timing: validate_timing_evidence.py.
--   Repository: repository_state.py. Repository/Clean: check_source_cleanliness.py.
--   Mutation: run_controlled_mutation.py.
--   The other files hold proofs, named for what they prove, and Tests the concrete runs.
--
-- Conventions. A definition has the name of the function it models; the state of a loop is passed
-- on; an exception is the err of a Result, with its class and its message. A text is the list of
-- its code points; the digits of int() and of \d are the ASCII ones. A float of a packet is its
-- bit pattern, and its printing a parameter; a finite float of a JSON value is an integer over a
-- power of two, and NaN and the infinities are values of their own. A JSON file that is written
-- with sorted keys is read back as the value with its keys sorted. The clock, the file system,
-- subprocesses, sockets, csv, YAML, JSON text, SHA-256 and repr are parameters: what a call of
-- them returned is an argument. Two threads are an explicit sequence: a Scenario Round says what
-- the listener appended before and what during the unguarded part of a turn. Loops are
-- structural; the only fuel is that of str() of a number, which is the number plus one and so
-- enough for its digits. What a command of a workflow returns is a function of the commands
-- started before it. A set that is only sorted or searched is the list of a dictionary's keys.
--
-- Not modelled: the hardware smoke test, the copying of the repository for a mutation, the
-- plots, and the flight software beyond its two packet ends; the shutdown of the server and the
-- socket in run_scenario.py, and the Markdown report of the evaluation.
-- A policy file of the assistant that is not UTF-8 counts as one that is no JSON; main ends alike.
pub mod Base
pub mod Protocol
pub mod Lcov
pub mod Assistant
pub mod Scenario
pub mod Requirements
pub mod Repository
pub mod Provenance
pub mod Mutation
pub mod Workflow
pub mod Campaign
pub mod Timing
pub mod Conformance
