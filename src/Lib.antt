-- ===== src/Lib.antt =====
-- A model of xmidt-agent, the agent on a device that exchanges WRP messages with the XMiDT cloud.
--
-- The parts, and how they meet. A message from the websocket goes through a chain of handlers: it is
-- logged, its partner is checked, and the pubsub gives it to the handlers that subscribed to its
-- service; what no handler took is answered. Messages to the cloud go through the QoS handler, which
-- keeps a priority queue before the websocket. Some services are the agent's own: a mock of TR-181,
-- and a CRUD service that changes the log level for a while. Services outside the agent register with
-- the libparodus adapter. The websocket dials in rounds: its endpoint is read from a signed DNS
-- record, and its headers carry the token of the credentials service, which fetches it, keeps it
-- in a file with a checksum and renews it, and the metadata, which names the network interfaces.
--
-- The files, by the code they model:
--   Base             numbers, lists, texts as lists of bytes, maps as association lists, partial calls
--   Wrp              wrp.Message of wrp-go, the errors, and internal/wrpkit/handler.go (Handler)
--   Heap             container/heap of Go's library: up, down, Push, Pop
--   Qos/Item         internal/wrphandlers/qos/priority_queue.go: item, dispose, Less, tie breakers
--   Qos/Queue        the same file: priorityQueue with Enqueue, Dequeue, trim, Push, Pop
--   Qos/Priority     internal/wrphandlers/qos/priority.go: PriorityType, UnmarshalText
--   Qos/Options      internal/wrphandlers/qos/options.go, internal_options.go and New of qos.go
--   Qos/Service      internal/wrphandlers/qos/qos.go: serviceQOS as `step`, wrpHandler as `deliver`,
--                    HandleWrp, Start, Stop
--   Wrphandlers/Auth, Missing, Logging, Mocktr181, Crud
--                    internal/wrphandlers/auth, missing, logging, mocktr181, xmidt_agent_crud: a
--                    HandleWrp takes the handlers that it calls and the state of the world around
--   Wrphandlers/Ingress
--                    cmd/xmidt-agent/wrphandlers.go: how the handlers on the way in are put together
--   Loglevel         internal/loglevel/loglevel.go: SetLevel, and its timers as a list of instants
--   Jwtxt            internal/jwtxt/token.go: Endpoint, fetch, reassemble, validate
--   Pubsub           internal/pubsub/pubsub.go and options.go: subscriptions, routes, HandleWrp with
--                    its goroutines, of which `finish` is the end of one
--   Fs, Fs/Mem       internal/fs/fs.go, options.go and internal/fs/mem/mem.go; in Fs/Mem/Opened file.go,
--                    an opened file, and New; in Fs/Os internal/fs/os/os.go
--   Configuration    internal/configuration/external.go: values of external files
--   Agent            cmd/xmidt-agent: in Config the records of config.go, in Credentials, Instructions,
--                    Websocket, Handlers, Metadata, Storage (fs.go) and Loading (config.go) a provider
--                    for each part, in Wiring what fx builds for lifeCycle, and in Hooks onStart and
--                    onStop
--   Setup            the functional options of the packages below: the loop of New and its checks
--   Jwtxt/Settings   internal/jwtxt/options.go and New of token.go
--   Net              internal/net/network_service.go: which interfaces are used, and their order
--   Metadata         internal/metadata/metadata.go and options.go
--   Credentials      internal/credentials/credentials.go: Credentials, Decorate, fetch; in Stored store
--                    and load, in Renewal run, of which a round is `attempt` and then `wake_up`, and
--                    in Settings New with options.go and internal_options.go
--   Websocket        internal/websocket/ws.go and mode.go: nextMode, dial, Send, and run, of which a
--                    round is `attempt` and what is read in it a `Session`; in Options options.go, in
--                    Settings New with internal_options.go, and in Authorization and Url the decorators
--                    and the URL that cmd/xmidt-agent/ws.go gives it; in Client newHTTPClient, and in
--                    Heartbeats pings, pongs and the time of inactivity
--   Libparodus       internal/adapters/libparodus: externals as numbered records, of which the
--                    adapter's map holds the numbers; `beat` is a message of a keepalive goroutine,
--                    and the loop of Stop may meet a registration, `Late`
--   Lifecycle        Start and Stop of the credentials, the websocket and the adapter: which goroutines
--                    have a context that is not cancelled, not when they end
--   Tests            runs on small inputs
--
-- State is passed explicitly. An instant is a number of nanoseconds, and a clock that the code reads is
-- an argument. A Go int is a natural number where the code keeps it non-negative; sizes stay far below
-- the bounds of int64, so there is no wrap-around in the model, but for the seconds of a
-- Retry-After. An error is a value of `Wrp.Error`, without the text that is wrapped around it. An
-- index out of range is `none`.
--
-- Fuel: the sift loops of the heap take the length of the list, which their invariants show to be
-- enough, so that Dequeue and Enqueue always come back; `decimal` takes its number plus one.
--
-- Parameters stand for what is not the agent's code: wrp-go's RequiresTransaction, normifiers and
-- locators, the eventor, encoding/json, zap's level and logger, the JWT libraries, the resolver,
-- path/filepath, SHA-256, msgpack, goschtalt, encoding/pem, net/http, the websocket library, the retry
-- policies, the package os and the sockets of mangos. Where a goroutine waits, its model takes a list
-- of what the waits end with. The headers of a request have one value for each key, as Header.Set
-- leaves it, but for those of the HTTP client.
--
-- Not modelled: the websocket library (a copy of nhooyr.io/websocket), the texts of events, the
-- example programs, and of the command its arguments, which kong reads, the layout of configuration
-- files, which goschtalt reads, and the injection by fx, of which the model has the calls that it
-- makes.
pub mod Base
pub mod Heap
pub mod Wrp
pub mod Jwtxt
pub mod Loglevel
pub mod Qos
pub mod Fs
pub mod Pubsub
pub mod Wrphandlers
pub mod Net
pub mod Metadata
pub mod Setup
pub mod Credentials
pub mod Websocket
pub mod Libparodus
pub mod Lifecycle
pub mod Configuration
pub mod Agent
pub mod Tests
