-- ===== src/Lib.antt =====
-- A verification library for the multi-protocol proxy: an SNI proxy, an HTTP and a SOCKS5 proxy
-- with users, limits and usage counts, and the server of PAC files.
--
-- The program runs in one of two modes. In SNI mode internal/proxy/server.go accepts connections up
-- to a capacity, reads the server name from the client's first bytes and relays to the target that
-- the configuration (internal/config) lists for the name; internal/proxy/stats.go counts, and
-- connections that are no TLS are served by an internal API. In HTTPS mode the servers of
-- internal/httpproxy and internal/socks5 share a user store (internal/auth) and a usage tracker
-- (internal/bandwidth), and the HTTP server passes /proxy.pac to internal/pac.
--
-- Which module models what:
--   Prelude       lists, Go strings as bytes, 64-bit words, maps as association lists
--   Host          the packages outside the repository, as a record that the models take
--   RateLimit     internal/auth/ratelimit.go: SetLimit, Allow (take_token is its arithmetic)
--   Auth          internal/auth/auth.go: LoadFromFile, ValidateCredentials, CheckIPAllowed, ...
--                 (Steps: ValidateCredentials between its locks)
--   Throttle      internal/bandwidth/throttle.go: NewThrottledConn, Read and Write, waitForTokens
--   Usage         internal/bandwidth/api.go: UsageHandler
--   Tracker       internal/bandwidth/tracker.go: RecordBytes, CheckAllowance, CheckConnLimit, ...
--   Sni           internal/proxy/server.go: extractSNI and PeekSNI
--   Proxy         internal/proxy: Relay (HandleConnection), Accept (the loop of Start), Lifecycle
--                 (Start, Reload, watchShutdown, drainConnections and the SIGHUPs of main.go),
--                 Stats and Report (stats.go, metrics.go), Writer (simpleResponseWriter,
--                 handleInternalAPI)
--   Socks5        internal/socks5/server.go: Wire (the messages), Handler (handleConnection),
--                 Accept (Start, watchShutdown, Shutdown)
--   HttpProxy     internal/httpproxy/server.go: Headers, Handler (handleRequest, handleConnect,
--                 handleHTTP), Server (NewServer), Lifecycle (Start, Shutdown)
--   Pac           internal/pac/pac.go: ServeHTTP, checkRateLimit, getClientIP
--   Config        internal/config: Env (LoadEnv), Load (Load, Validate)
--   Main          cmd/proxy/main.go: the mode, and what its servers start with (Wiring: the metrics
--                 server and the lines that are logged; Sessions: runs of the HTTPS mode, one after
--                 the other)
--   Manage        scripts/manage-users.go: the commands of the user management tool (Listing: what
--                 it prints), and scripts/hash-password.go (HashPassword)
--   Ui            internal/ui: Ansi, Links, Table, Note, Progress, Log (headings, taglines), Theme
--                 (theme.go), Status (the lines of logger.go), Banner, Lines (what progress.go prints)
--   Decimal       itoa of internal/proxy/server.go, parseIntOrDefault of internal/config/env.go
--   Examples      concrete inputs
--
-- State and steps. A component's state is a record, and an operation maps a state to a state and a
-- result. A method that holds a mutex is one step. The handlers of SOCKS5 and HTTP carry the user
-- store, the tracker and a trace of what they send, dial and count; their world is a record with
-- what the network and the clock answer. A `defer` is a step behind the call that it guards. The
-- accept loop is a step relation with the states that a new server comes to. The life of a server is
-- a function of a list of events, in which the goroutines take their turns in any order and the
-- events carry what is outside answers: Proxy/Lifecycle, HttpProxy/Lifecycle, Socks5/Accept.
--
-- Numbers. An `int` or `int64` that the program only adds and compares is a 64-bit pattern, with the
-- wrap written out. The rate limiter counts tokens in units of 1/(60 * 10^9), in which a refill
-- over whole nanoseconds is exact; the source's floats round. Times are nanoseconds. The loop of
-- extractSNI over the extensions runs on fuel, one more than the length of the data, and every
-- round moves at least four bytes on, so that the fuel is never used up. itoa recurs on the number
-- itself.
--
-- A throttled connection counts units of 10^-9 byte, in which its refill over whole nanoseconds is
-- exact too. Its waiting loop runs on fuel: each round sleeps at least a millisecond, so that one round
-- more than the milliseconds that make up for what is missing is enough. The two goroutines
-- of a relay use the connection at once, and their critical sections are separate steps, in any
-- order (Transfers). The menu of the user tool
-- runs on fuel as well, one for each round; its commands do not. So does the loop of
-- hash-password.go, which its input may never end. Texts on the console are lists of
-- code points.
--
-- The success rate is a number of tenths of a percent, rounded exactly.
--
-- Not modelled: TLS beneath the certificate that is handed to it, deadlines on connections, the texts
-- of prompts and of JSON, the registry of Prometheus, the pool of the HTTP transport, and the
-- loading of .env. Upper and lower case and white space are those of ASCII; `strings.EqualFold` of the
-- user tool is a parameter.
pub mod Prelude
pub mod RateLimit
pub mod Host
pub mod Auth
pub mod Throttle
pub mod Usage
pub mod Tracker
pub mod Sni
pub mod Decimal
pub mod Socks5
pub mod HttpProxy
pub mod Pac
pub mod Config
pub mod Main
pub mod Manage
pub mod Ui
pub mod Proxy
pub mod Examples
