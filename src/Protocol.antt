-- ===== src/Protocol.antt =====
-- The command and telemetry protocol of the ground tools (tools/send_command.py,
-- tools/telemetry_receiver.py, tools/telemetry_dashboard.py, tools/generate_command_fuzz_corpus.py)
-- and the two ends of it in the flight software.
pub mod Crc
pub mod Pack
pub mod Flight
pub mod Command
pub mod Frame
pub mod Telemetry
pub mod Dashboard
pub mod Corpus
mod Tests
