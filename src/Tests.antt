-- ===== src/Tests.antt =====
-- Runs of the model on concrete inputs, and each theorem at an input that meets its hypotheses.
mod Script
mod Pipe
mod RegisterRuns
mod XmodemRuns
mod CmdRuns
mod HttpRuns
mod ObjectRuns
mod CommandRuns
mod FirmwareRuns
mod ModemRuns
mod FileRuns
mod LinkRuns
mod MainRuns
