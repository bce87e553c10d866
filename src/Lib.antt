-- ===== src/Lib.antt =====
-- The Radio Control Container: a service that controls radios through adapters, keeps an inventory
-- of them, and tells its clients what happens by server-sent events.
--
-- A command (select a radio, read its state, set its power or its channel) goes to the orchestrator,
-- which looks the radio up in the radio manager, checks the value, calls the active adapter, writes
-- an audit record and publishes an event. An adapter's error is normalized to one of four codes. The
-- telemetry hub numbers the events of each radio, keeps the last ones in a buffer, and delivers them
-- to the clients; a client that comes back is sent what it missed. The configuration is validated
-- once, at the start.
--
-- The repository has a second program, silvus-mock, a simulated radio: it keeps a frequency, a power
-- and the end of a blackout, takes commands one after the other from a queue, and is reached by
-- JSON-RPC and by a maintenance server.
--
-- Files and the code that they are about:
--   Prelude                what all files share: Boolean tests, lists, association lists for Go's
--                          maps, texts as codes, signed integers, and float64 as a parameter
--   Adapter                rcc/internal/adapter/adapter.go: IRadioAdapter, RadioState, Channel, ...
--   Adapter/Errors         rcc/internal/adapter/errors.go: VendorErrorMappings,
--                          NormalizeVendorError, mapVendorErrorToCode; the sentinels of
--                          rcc/internal/command/ports.go
--   Adapter/SilvusMock     rcc/internal/adapter/silvusmock/silvusmock.go, an adapter
--   Adapter/Fake           rcc/internal/adapter/fake/fake.go, an adapter
--   Radio                  rcc/internal/radio/manager.go: Manager and the methods that call no
--                          adapter; Radio/Discovery has LoadCapabilities, GetRadio and
--                          RefreshCapabilities, Radio/Channels the numbering of channels
--   Telemetry/Event,       rcc/internal/telemetry/hub.go: Event; EventBuffer; Hub with Publish,
--   Telemetry/Buffer,      Subscribe, handleClient, unregisterClient, Stop
--   Telemetry/Hub
--   Config/Timing,         rcc/internal/config/timing.go: TimingConfig, SilvusBandPlan
--   Config/BandPlan
--   Config/Validate        rcc/internal/config/validate.go
--   Config/Load            rcc/internal/config/load.go: Load, applyEnvOverrides, mergeTimingConfigs
--   Command/State          rcc/internal/command/orchestrator.go: Orchestrator, logAudit, publish...
--   Command/Resolve        the same: resolveChannelIndex, getRadioModelAndBand
--   Command/Orchestrator   the same: SetPower, SetChannel, SetChannelByIndex, SelectRadio, GetState
--   Command/Orchestrator/  rcc/cmd/rcc/main.go: the orchestrator that the program creates
--   Wiring
--   Command/Mocks          the orchestrator with Silvus mocks, up to the API's answer
--   Api/Errors             rcc/internal/api/errors.go: ToAPIError, mapAdapterError, getErrorMessage
--   Api/Server             rcc/internal/api/routes.go, ports.go, server.go: the handlers and the ports;
--                          Api/Routes has RegisterRoutes and handleRadioEndpoints, Api/Ports the
--                          ports as the orchestrator, its manager and its hub fill them
--   Auth                   rcc/internal/auth/middleware.go: RequireAuth, RequireScope, RequireRole
--   Auth/Tokens            rcc/internal/auth/verifier.go: NewVerifier, VerifyToken, getKeyFromJWKS, ...
--   Audit                  rcc/internal/audit/logger.go: Logger, LogAction, LogControlAction, Rotate
--   Mock/Config            silvus-mock/internal/config/config.go: Config, Load, validateConfig
--   Mock/Radio             silvus-mock/internal/state/radio.go: RadioState, processCommand and the
--                          handlers; Mock/Radio/Range has isValidFrequency, frequencyInRange
--   Mock/Queue             the same: commandQueue, commandWorker, ExecuteCommand and Close, as a
--                          step relation; Mock/Direct has ExecuteCommand for an idle worker
--   Mock/Commands          silvus-mock/internal/commands: interface.go, and below it Core (core.go),
--                          Optional (optional.go), Positioning (gps.go) and Server
--                          (extensible_server.go)
--   Mock/Maintenance       silvus-mock/internal/maintenance/server.go: isAllowedConnection,
--                          handleConnection, processMaintenanceRequest
-- The modules below a component that are named for what they prove hold its theorems, and a module
-- Tests its tests and examples.
--
-- State is passed explicitly: a method takes the record of its object and returns the new one. What
-- the adapters keep is one outside world, which each call of an adapter takes and returns; an adapter
-- may do anything to it and fail at any call, so a context with its timeout adds nothing. A lock makes
-- a method of the manager one step. A method of the hub is one step too, and what Go's select takes
-- among ready cases is an argument.
--
-- Bounds: an event's number is an int64 and wraps at 2 ^ 63. A client's channel holds 100 events. A
-- buffer's capacity is a natural number, since a configuration with a negative one is not accepted.
-- The rendering of an integer has fuel of one step more than its value. The loop over a range of
-- frequencies runs on a number of rounds and answers `none` where they are used up; the theorems on
-- it ask for a round after which the float has passed the end, since adding a step to a float need
-- not change it. The queue of the simulated radio holds 100 commands.
-- Messages are ASCII. A float64 is a value of any type with Go's two comparisons and a test for the
-- values that JSON can hold, so NaN is covered; the float 1.5 is an argument of the baseline.
--
-- Parameters: of Go's library the parsers of numbers, Booleans and addresses, the sum of floats and
-- the milliwatts of a power; of the system the environment, files and the clock; of the HTTP API the
-- decoder of bodies, and the verifier of tokens, which has parameters of its own: the JWT library, the
-- answers of the key server, and the decoders of PEM and base64.
--
-- Not modelled: interleavings of the hub's methods, the ticker's period, the second
-- JSON-RPC server of the Silvus mock, sockets, the encoding of JSON and the web interface. The
-- orchestrator's audit records have no latency and no user.
pub mod Prelude
pub mod Adapter
pub mod Radio
pub mod Telemetry
pub mod Config
pub mod Command
pub mod Api
pub mod Mock
pub mod Auth
pub mod Audit
