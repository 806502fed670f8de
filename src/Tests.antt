-- ===== src/Tests.antt =====
-- Runs of the model at concrete inputs: each theorem applied where its hypotheses hold.
mod Machine
mod Units
mod Steps
mod Tables
mod Packets
mod Requests
mod Runs
mod Streams
mod Traces
