-- ===== src/Lib.antt =====
-- OpenPact: a log of signed entries that several peers share, and the state they agree on.
--
-- Every peer runs the daemon (packages/daemon). Each writer appends entries to its own core, and
-- an Autobase linearises the cores into one log, on which every peer runs the same reducer.
--   - packages/daemon/src/entry-id.ts and peer-handle.ts name entries and peers: EntryId,
--     PeerHandle, with Hex (bytes as hexadecimal texts) and Words (the word list).
--   - packages/daemon/src/schemas/index.ts checks an entry: Schemas.
--   - packages/daemon/src/apply.ts is the reducer from the log to the view: Apply. `apply` is the
--     loop of `makeApply`, `apply_node` its body, and the functions it calls are in the order of
--     the source. The view (a Hyperbee) and the host (an Autobase) are the interfaces `ApplyView`
--     and `ApplyHost` of Apply/View, with the laws of the view in `IsView`.
--   - packages/daemon/src/api/tasks-state.ts reduces the entries of one task to its state: Tasks.
--   - packages/daemon/src/api/views.ts lists and looks up the entries of the view: Views, over the
--     interface `ReadView` of Views/Store, with what a Hyperbee documents in `IsReadView`.
--   - packages/daemon/src/api/routes/tasks.ts claims, completes and releases a task over HTTP:
--     TaskRoutes, on what the handlers read of the view.
--   - packages/daemon/src/invites.ts is the format of invite tokens, and pact.ts mints, revokes and
--     redeems them: Invites, Pact. A redemption appends two entries that `apply` then reads.
--     PactMeta is the pact's name and purpose, which pact.ts sets and mirrors from `apply`.
--   - packages/daemon/src/member-auth-wire.ts and invite-wire.ts are the frames that two daemons
--     exchange: Wire, over the interface `Coding` for compact-encoding.
--   - packages/daemon/src/member-auth-channel.ts watches a link by pings, and asks the daemon at its
--     other end to prove its membership: Liveness, MemberAuth.
--   - packages/daemon/src/daemon.ts holds the pacts of a host, and config.ts what it keeps of them in
--     daemon.json: Registry, with Aliases for their names and HostConfig for the file. `Host` is the
--     state; an operation takes it to a `Reply` and the next state, errors included. RedeemPeers is
--     the redemption of an invite through the connected peers.
--   - packages/daemon/src/api/routes/pacts.ts and pact-resolver.ts are the requests on that registry:
--     PactRoutes; api/routes/invites.ts are those on invites, over RedeemPeers and Pact:
--     InviteRoutes. api/auth.ts and bind.ts say who may make a request at all: Access.
--   - packages/daemon/src/api/routes/changes.ts is the feed of new entries: Changes, over `ReadView`.
--
-- Names follow the source, in snake_case. Json is the type of the values that entries are made of,
-- Prelude holds the shared types, tests and lemmas, and Examples the runs on concrete data.
--
-- Conventions. A JavaScript string is a list of UTF-16 code units (`Text`). An exception is `none`,
-- or a constructor of the result. Times are milliseconds counted from the earliest date that
-- `Date` holds, so they are natural numbers. Sequence numbers are safe integers. Loops over lists
-- are structural recursions, so no fuel is needed. `walk` of Views/Walk and `follow` of
-- Changes/Follow, callers that follow cursors, have fuel, and more pages than rows are enough;
-- `first_free` of Aliases has the 9,997 rounds of the loop that it models. The functions of the
-- platform and of packages (ajv, `JSON`, base64url, `Date.parse`, `toISOString`, `localeCompare`,
-- the size of a JSON text, the host of a URL, UTF-8, discovery keys, directories, signatures) are
-- parameters, and what a theorem asks of them is among its hypotheses. An object is always printed as
-- `[object Object]`: `String` would throw at an own `toString`, which a JSON object may have.
--
-- Not modelled: the network, the files, the HTTP server and its other routes, the command line, the
-- MCP server and the dashboard. Whether a store opens, a directory is renamed or a peer replies is an
-- input of the operation. The lock around the invites file is taken to serialise its users, the
-- file to be read and written without error, and the appends of a redemption to succeed.
pub mod Prelude
pub mod Json
pub mod Hex
pub mod Words
pub mod EntryId
pub mod PeerHandle
pub mod Schemas
pub mod Apply
pub mod Tasks
pub mod Invites
pub mod Pact
pub mod Access
pub mod Aliases
pub mod Changes
pub mod HostConfig
pub mod InviteRoutes
pub mod Liveness
pub mod MemberAuth
pub mod PactMeta
pub mod PactRoutes
pub mod RedeemPeers
pub mod Registry
pub mod TaskRoutes
pub mod Views
pub mod Wire
pub mod Examples
