-- ===== src/Lib.antt =====
-- A verification library of amp-host-go, the host of the AMP protocol.
--
-- Each module is about the code of one package. Go functions keep their names in snake_case, and a
-- method takes and returns the values of what it reads and writes.
--
-- Base: shared helpers. Words has the integers of fixed width as bit patterns, Bytes the byte
--   slices with bytes.Compare, bytes.Equal and bytes.HasPrefix, Sort and Search Go's sort.Sort and
--   sort.Search. sort.Search recurs on fuel `n`, which is enough because each round shortens the
--   range of length `n`.
-- Ski.Key: KeyInfo and KeyEntry of ski/api.ski.pb.go, and their order in ski/ski.support.go.
-- Ski.Keyring: the methods of Keyring in ski/ski.support.go. The loop of MergeKeys recurs on fuel,
--   the length of the source, which is enough because each round shortens what is left to look at.
--
-- Ski.Tome: KeyTome and KeyTomeMgr of the same file. MergeTome's loop recurs on fuel as that of
--   MergeKeys; the generated Marshal and Unmarshal are parameters.
-- Ski.Payload: PayloadPacker and PayloadUnpacker of ski/ski.support.go. The generated codec of
--   SigHeader, the hash functions, an EnclaveSession and a kit's verification are parameters, an Env.
--   uint32 is wrapped, and a slice or an index out of range is a panic, which is a value.
-- Ski.CryptoKit: what a kit offers, as a record, and FetchHasher. Ski.Nacl and Ski.Ed25519 fill it
--   with the kits of ski/nacl/nacl.go and ski/ed25519/ed25519.go. The functions of
--   golang.org/x/crypto are parameters, with what it documents in IsNacl and IsEd, and so is the
--   io.Reader. A slice out of range panics, which is a value. Go bounds `key[:32]` by the capacity
--   of the key, so a key that is sliced is given as the bytes up to its capacity.
-- Ski.Kits: the registry of crypto kits in ski/api.ski.go; a kit's ID and what it verifies are
--   parameters.
-- Host.Session: the requests of a session, in amp/host/host.go. A session is a value with the map
--   openOps, a store of requests, and logs of what it is given to send; a tag.ID is a number, and 0
--   the nil ID. Closing has closeOp and what calls it, Adding addClientOp, Incoming handleIncomingOp
--   with submitToApp, Events the steps of consumeInbox, of the loops of the apps and of the pins
--   that push messages, and AppAttrs the start of GetAppAttr and PutAppAttr. A step is what a
--   goroutine does between two waits for an app, a mutex or a message; a call of closeOp is part of
--   the step that makes it, or goes on in a step of its own after it marked the request. `blocks`
--   is the result of a step that cannot go on, and `waiting` says which call holds openOpsMu while
--   it waits for a request to be started.
--   What the code cannot know, such as the outcome of a pin's ServeRequest, of tx.CheckMetaAttr or
--   of url.Parse, is an argument of the step.
-- Host.Apps: the app contexts of a session in the same file, by the steps of appContextForAppID and
--   of the end of a context, which both hold activeAppsMu. Host.Login: handleLogin and what OnRun
--   does after it. Host.Link: SendTx and the two loops of StartNewSession, one message a step.
-- Host.LibService: Realloc and Close of amp/host/lib_service/lib.service.go. `max_alloc` is the most
--   that the runtime allocates; make panics above it.
-- Symbols: the table of amp/badger/symbol_table/table.go. badger's database and sequence and the
--   codec of symbol.ID are parameters, an Env, with what is documented of them in IsLawful. How the
--   transactions of a call end is an argument, Attempts; on a conflict it has the database as the
--   other writers left it, and the loop recurs on it. Symbols.Issuer has the reference count of an
--   issuer, in issuer.go, Symbols.Issuing its making and its IDs, and Symbols.Lifetime the tables
--   that share one, as steps of CreateTable of api.go and of AddRef and Close of table.go.
--
-- Host.Tcp: the TCP server of amp/host/tcp_service/tcp.service.go, as the steps of Serve, of Stop and
--   of Close between their blocking calls. `mu_held` is a mutex that nobody will release.
-- Shoutcast.Stream: Read of amp/apps/amp.app.shoutcast/stream.go. The body of the response is a
--   parameter, and IsFilling says that it gives the bytes of a list and as many as it is asked for,
--   as long as it has them. The loop that reads the rest of a block recurs on the number of missing
--   bytes, and the loop of Read on the number of bytes read; both are enough since each round
--   shortens what is left. The parsing of the metadata is not modelled.
-- Space.Cell: a cell of amp/apps/amp.app.space/app.spaces.db.go. badger's database and the writers
--   and readers of tag.ID are parameters. How the transactions of a call end is an argument, on
--   which the retry loop recurs. Pins has removeSync; a pin is a number. The sends of pushToPins and
--   pushSnapshot to a pin are not modelled.
-- Space.Serving: the requests of the same file. What the symbol tables, badger and the contexts
--   answer are parameters. launchPin and ServeRequest recur on fuel; three calls are enough since
--   ServeRequest calls launchPin with an ID that is not nil.
-- Assets: amp/assets/assetServer.go, the IDs of assets in Ids and their table in Server. The outer
--   loop of GenerateAssetID recurs on the number of characters, which is enough since each round
--   writes one. PublishAsset is two steps, between which the asset's context may close.
--
-- Not modelled: the volatile issuer of a symbol table in memory, the capacity of the apps' inboxes,
-- what GetAppAttr and PutAppAttr do once their request is ready, two Keyrings that are one object,
-- nil pointers to a KeyInfo, what is left in the memory behind a shortened slice, the mutexes of
-- the packer and the unpacker, the parsing of a stream's metadata and the opening of a stream, the
-- contexts that close cells and pins, the HTTP side of the asset server and the channels of the
-- library service. Of the remaining packages, some are generated code, calls of web services or
-- start-up code; the file system app and arcgate are left out too.
pub mod Assets
pub mod Base
pub mod Ski
pub mod Host
pub mod Symbols
pub mod Shoutcast
pub mod Space
mod Tests
