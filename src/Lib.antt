-- ===== src/Lib.antt =====
-- A model of lotor-go, the Go client of Lotor's LWP/1 data plane and its function runtime.
--
-- Wire models lotor/wire.go: putUvarint, readUvarint, zigzag and unzigzag (Wire/Numbers), the
-- tagged values with encodeValue and decodeValue (Wire/Values), and frames with encodeFrame and
-- decodeFrame (Wire/Frames). A byte slice is the list of its bytes, and a position in it is the
-- rest of the list; the encoders give the bytes that the code appends. A Go panic is a result of
-- the readers. `slice_limit` stands for the largest slice of values that the Go runtime can
-- allocate. Fuel bounds the nesting of a decoded value; decodeFrame is given one more than the
-- length of its input, and every level takes a byte, so it is never used up.
--
-- Bridge models bridge/ and bridge/sqlstore. Bridge/Platform has the messages of
-- bridge/protocol.go, and what the code takes from Go's standard library (SHA-256, Ed25519, base64,
-- encoding/json) as a record of functions. Bridge/Protocol has ManifestDigest and the signing and
-- verifying functions. Bridge/Journal is ExecutionStore as operations with the laws that the
-- runtime relies on; Bridge/SqlStore is bridge/sqlstore/postgres.go over a table of rows, and fills
-- those laws. Bridge/Runtime is bridge/runtime.go: NewRuntime, the checks of a request
-- (Bridge/Runtime/Admission) and the rest of ServeHTTP (Bridge/Runtime/Serve). The clock at each
-- reading, cancelled contexts, the callback's answer and the faults of the database are arguments
-- of a request; a handler is a function of its authorization. Requests in one process or in several
-- act on the journal and run handlers between each other's calls: Bridge/Runtime/Serve/Steps cuts
-- ServeHTTP at `Reserve`, the handler and `Complete`, and Bridge/Runtime/Serve/Interleaving is the step
-- relation of requests in flight, with servers that stop. A call of the journal is one step.
--
-- Bridge/Resource is accessPayload of bridge/resource.go and WorkloadContext of bridge/workload.go, and
-- Bridge/Custody is bridge/custody.go, with the reply of Control, the clock and AES-GCM as arguments:
-- a `Handle` is a ResourceCipher, which names its key state by an address in a memory, so that copies
-- share it; a callback returns or panics, and leaves a memory. Bridge/Client is
-- bridge/client/client.go: Invoke over the answer of the network, with the messages sent so far.
-- Bridge/Transport is bridge/transport/https.go: ValidateEndpoint, publicDialer with the addresses that
-- it dials, and send with its requests; addresses and their classes are those of net/netip.
-- Bridge/Discovery is bridge/discovery.go.
--
-- Gateway models lotorhttp/gateway_assertion.go: the claims and their checks, and GatewayAssertionVerifier
-- with its middleware (Gateway/Verifier). The replay store is an interface with the laws that the
-- source's comment on it promises, and it has its own clock, read when it is asked. Times are nanoseconds as integers, seconds int64 with wrap-around.
--
-- Ownership models lotor/ownership.go: the assertions and their checks, OwnershipResolver as a record
-- of its key set and its cached assertion, and WithOwnerRetry (Ownership/Retry). Replies of the control
-- plane, the clock, and what a connection does are arguments of a call; an error is `none`, or a
-- `Failure` where the code looks into it. Times are int64 microseconds with wrap-around.
--
-- Client models lotor/client.go: a connection as a record of what `pend`, the channels and `subs` hold,
-- the read loop over the bytes that arrive (its fuel is the length of the buffer and one, and every
-- frame takes four bytes; Client/Drain and Client/Stream follow it over a stream in any cuts), `do` as
-- its steps, and the arguments and results of the operations (Client/Requests, Client/Results);
-- a reader of a reply is `none` where it would panic on an index. The
-- operations of lotor/key_access.go are Client/SubjectKeys and Client/Sharing.
--
-- Browser models lotorhttp/browseradapter: the allowed routes (Browser/Routes), a request of a browser
-- up to the request to Control (Browser/Request), and the answer with its cookies
-- (Browser/Request/Reply). URLs, cookies' syntax and JSON are a record of functions.
--
-- Not modelled: sockets, TLS and HTTP transport, JSON texts, the SQL migration, the deadlines of
-- contexts (a cancelled context is an argument).
pub mod Common
pub mod Wire
pub mod Bridge
pub mod Ownership
pub mod Client
pub mod Gateway
pub mod Browser
