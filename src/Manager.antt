-- ===== src/Manager.antt =====
-- manager/manager.go. `Validate` checks a model's configuration, `State` has the methods of
-- ServerManager, `Launcher` the goroutine that StartModel starts, `World` the interleavings of
-- these, `Command` the command line of llama-server, `Logs` its log file. The other children prove.
pub mod Validate
pub mod State
pub mod Launcher
pub mod World
pub mod Command
pub mod Checks
pub mod Listening
pub mod Logs
pub mod LogFiles
mod Measure
mod Unstuck
pub mod Remaining
pub mod Termination
pub mod Cases
mod Known
mod Tracks
mod Budget
pub mod Signals
mod OneLive
pub mod Contexts
pub mod Retries
pub mod StopCall
pub mod Calls
pub mod Races
