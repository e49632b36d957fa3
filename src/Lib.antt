-- ===== src/Lib.antt =====
-- Verification of the LLM fleet manager.
--
-- The program controls llama-server on one machine and, as a coordinator, on others. The manager
-- (manager/manager.go) starts, restarts and stops one process; the fleet (fleet/client.go,
-- fleet/fleet.go) asks other managers what they run; the proxy (proxy/proxy.go, proxy/handler.go)
-- routes OpenAI requests to the machine that runs the model asked for; the handlers
-- (handlers/handlers.go) are the HTTP API with its key check and the configuration endpoints; and the
-- server (server/server.go) wires these up, limits requests and reloads the configuration. main.go reads
-- the flags and may start the program again as a daemon; metrics reads the machine's load; and
-- tools/cli/commands is a client of the API.
--
-- - Base: Booleans, lists over the native numbers, texts, association lists for Go's maps, Float64.
-- - Models: models/models.go. Config: the types and the alternative forms of config/config.go.
--   Config/Load: Load, Reload and decodeConfig.
-- - Manager/Validate: ValidateModelConfig. Manager/State: ServerManager and its critical sections.
--   Manager/Launcher and Manager/World: launchServer and StopModel as machines whose steps are the
--   critical sections, the calls of the operating system and the tests of the context; `run` takes the
--   steps in any order, with calls, polls and reloads between them. Manager/Command: buildCommand.
--   Manager/Logs: the log file's handles and its name, as steps of the launchers that share it.
-- - Fleet/Port: RoutablePort and the pattern for --port. Fleet/Worker: NewWorker and the reading of
--   replies. Fleet/Registry: Registry with its cache. Fleet/Gather: the goroutines of Snapshots, whose
--   steps a schedule takes in any order. Fleet/Views: what the API shows of a snapshot.
-- - Proxy/Table: rebuild. Proxy/Router: lookup, resolve and invalidate. Proxy/Forward:
--   HandleGeneration and forward. Proxy/Flight: refresh, as steps of requests that share one rebuild; a
--   schedule takes them in any order. Proxy/Replies: the errors with their statuses and codes.
--   Proxy/Transport: makeProxy, its error handler and the two rounds of forward. Proxy/Listing: ListModels
--   with its ETag. Proxy/Warnings: warnOnce and what rebuild warns about.
-- - Handlers/Access: RequireAPIKey, RequireAuth and CORS. Handlers/Origins: the allowed origins of New.
--   Handlers/Etag and Handlers/SaveConfig:
--   configETag, etagMatches, GetConfig and SaveConfig. Handlers/AtomicWrite:
--   writeConfigFileAtomic. Handlers/Items: localModelItems, localFleetMachine and the worker endpoints.
--   Handlers/FleetView: GetFleet, ListWorkers and WorkerSystem. Handlers/Endpoints: StartModel, StopModel and
--   GetRunningModel with their status codes.
-- - Server/Index: indexModels. Server/Limits: the rate limiter's entries and the limits on bodies.
--   Server/Reload: reloadConfig. Server/Watch: the loop of WatchConfig.
--   Server/Lifecycle: New, Validate and Shutdown, with what runs meanwhile as lists of steps. Server/Routes and Server/Chain: the routes and the middleware of
--   setupRouter, and CORS around them. Server/WebUi: server/ui.go.
-- - Main: main of main.go. Main/Spawn: runDaemon and CheckLlamaServer. Cli: the address, the key, the paths and
--   the results of tools/cli/commands. Cli/Tables: what the list and the fleet command print; Cli/Agree and
--   Cli/FleetTable: the fields that the server sends them.
-- - Metrics/Cpu and Metrics/Memory: parseProcStat, Usage and readMemory of metrics/sampler_linux.go.
--   Metrics/Gpu, Metrics/Rocm and Metrics/Ioreg: parseNVIDIA, parseROCm and parseIOReg of metrics/gpu.go,
--   clampPercent and gpuSnapshot of metrics/metrics.go. Metrics/Darwin and Metrics/Sysctl: metrics/sampler_darwin.go.
--   Metrics/Round: round1. Metrics/Collect: collectGPU, readLoad, readCPUModel and Snapshot.
-- - Tests: the definitions and the theorems at concrete inputs.
--
-- Every loop of the source is a recursion over the list, the text or the sequence of events that it
-- reads. Only the decimal digits of a number are made on fuel, one more than the number, which is enough
-- since each division by ten makes it smaller. Times are numbers of nanoseconds and never go back, as a
-- subtraction that stops at 0. A PID is a number. A Float64 is NaN, an infinity,
-- -0 or a finite value as a whole multiple of 2^-1074.
--
-- Parameters stand for net/url, encoding/json, viper, the matching of routes in gorilla/mux, the director of
-- net/http/httputil, the canonical names of headers, the hashes of ETags, the formats of fmt, the
-- arithmetic of float64, the integers that flag reads, the token bucket of golang.org/x/time/rate, the
-- output of system tools, the existence of files and the answers of other machines.
--
-- Not modelled: the web UI's client, the timeouts and signals of Start, log messages but the proxy's warnings, what
-- is in the log files, the transport of
-- HTTP and its streams, the column widths of what the client prints, and the stub for systems other than Linux and macOS.
pub mod Base
pub mod Cli
pub mod Config
pub mod Fleet
pub mod Handlers
pub mod Main
pub mod Manager
pub mod Metrics
pub mod Models
pub mod Proxy
pub mod Server
pub mod Tests
