-- ===== src/Lib.antt =====
-- quicSQL: the server's own core logic, verified.
--
-- quicSQL serves SQLite databases over HTTP and Hrana. A request is authenticated by the methods of
-- its listener (auth/), with keys that may have been enrolled at run time (enroll/, meta/), and
-- admitted by the limiter (limits/), its principal's level on the database is looked up in the policy (authz/), a Hrana
-- request finds its session by the baton it carries (session/) or opens one on the shared handle
-- of its database (registry/), a statement is classified and run (engine/), and a batch runs its
-- steps under conditions (httpapi/). Row changes that a connection commits are numbered and sent to
-- subscribers (feed/).
--
-- Prelude    Shared names, Boolean tests, lists, Go maps as association lists, results, integers.
-- Encoding   base64.RawURLEncoding, binary.BigEndian, hex and the functions of strings, as the
--            tokens and credentials use them.
-- Auth       auth/session.go: Token (issue, parse), Minter (mint, renew, maybeRefresh, verify,
--            revoke and its variants); auth/challenge.go: Challenge; auth/auth.go, methods.go and
--            cookie.go: Directory (compile, loadRoster, the keyring), Requests (the methods and
--            authenticateFor), Sessions (serveSession, MintSessionAs, MintStepUp, Wrap).
-- Meta       meta/meta.go: the tables of enrolled principals and enrolment codes.
-- Enroll     enroll/enroll.go: Service (ServeHTTP in its two halves, rollbackEnroll, Delete,
--            Touch, flushSeen, reap, MintCode), Loading (LoadExisting). Who is admitted is in
--            Gates, the undoing in Rollback, and Sync/Runs is the service as a transition system whose
--            steps are the sections of registrations and removals.
-- Authz      authz/authz.go: Level (Level, ParseLevel, String, CanRead, CanWrite, CanAdmin), Policy
--            (Principal, Grant, Revoke, RevokePrincipal, Policy.Level); authz/assurance.go:
--            Assurance (RequireAssurance and its types), with the rules in Assurance/Gate.
-- Session    session/session.go: Baton (mint, verify), Store (Session, Store, closeLocked and its
--            teardown), Store/Open (Open), Store/Requests (Resume, Baton, PeekBaton, Close),
--            Store/Reaping (reap, CloseAll, Kill, List, Count). Store/Steps is the store as a
--            transition system of critical sections, about which Slots and Replay are.
-- Feed       feed/feed.go: Ring (dbFeed: publish, subscribe, unsubscribe, closeAll), Transaction
--            (the hooks of Install), Broker (New, Register, Forget, Observed).
-- Registry   registry/registry.go: New, Get in its sections, releaseFunc, Reserve, Add, Remove,
--            ReapIdle, List, Close; Steps is the registry as a transition system of critical
--            sections, without Close.
-- Limits     limits/limits.go: New, Allow with its release functions, takeToken, InFlight.
-- Engine     engine/classify.go: firstToken, IsReadOnly, IsExplain, hasReturning, Run's choice;
--            engine/engine.go: Queries (New, Query, Batch).
-- Config     config/load.go: Names (the vocabularies, ValidDBName), Auth (validateAuth,
--            validateEnroll, ValidateProvision); Sound is about what they guarantee;
--            Wiring (ValidateDatabase, validateVault, validateTransports), which Binding is about.
-- Wire       internal/wire/codes.go: the result codes and their names.
-- Hrana      httpapi/hrana.go: Condition (evalCond), Batch (runHranaBatch), Stream
--            (runStreamRequest, execStmt, resolveSQL, hErrorFrom), with hrana_types.go.
--
-- Numbers are naturals. The generation of a session and the number of an event wrap around at
-- 2 ^ 64 as in Go; instants are nanoseconds. A method that holds a mutex throughout is one function
-- on the state, and Open, which lets go of it, is several. Go's maps are association lists, and the
-- order of a range over a map, which Go leaves open, is the order of the list. Pointers that two
-- parts share (feeds, registry entries, release functions, connections) are numbers. A panic is
-- `none`.
--
-- The loop of firstToken takes fuel, one more than the text is long; every round but the last
-- shortens the text, so the loop returns. All other loops are structural.
--
-- An operation that reads the clock more than once, as a registration does for its code, has one
-- instant here.
--
-- Names, tokens and keys are lists of bytes in Auth, Meta, Enroll and Config, and strings
-- elsewhere. A call of the metadata store may fail, which a record of Booleans decides for each
-- call.
--
-- Parameters: the MAC of a baton and of a token, digests, bcrypt, the ssh and keyring packages,
-- secret references, what TLS and the socket say of the peer, the policy as the enrolment uses
-- it, the creation of an enrollee's database, the rate limit of an address, float64 and its
-- operations in the limiter, the resolution of a path on the file system, and the driver: running
-- a statement, preparing it, capturing changes, beginning, committing and rolling back a
-- transaction. The random source and the clock are arguments. Not modelled: the goroutine of
-- StartReaper, logging, the Unicode letters that fold to ASCII ones in a keyword, SQLite itself,
-- the pipeline around the requests of a stream, the value codecs, the HTTP handlers, the
-- provisioning of databases, the rest of the configuration, the client, and the assembly of the
-- server.
pub mod Prelude
pub mod Encoding
pub mod Authz
pub mod Session
pub mod Feed
pub mod Limits
pub mod Engine
pub mod Hrana
pub mod Registry
pub mod Wire
pub mod Auth
pub mod Meta
pub mod Enroll
pub mod Config
