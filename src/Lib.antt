-- ===== src/Lib.antt =====
-- DIDEm, a register of decentralised identities on a permissioned blockchain.
--
-- Nodes gather signed transactions about DIDs and nodes, agree round by round on the next block of
-- them, and keep blocks, transactions and an index of them in a store of objects under their CIDs.
--
-- Which file models which part:
--   Base        the result of a Go call (a value, an error, a panic), actions on a state, maps as
--               association lists, the tests of Go, strings of bytes.
--   Resync      internal/utils/resync/resync.go.
--   W3cdid      pkg/did/w3cdid: Document (document.go), Url (url.go with the parts of net/url that it
--               uses), Valid (validation.go, crypto.go).
--   Tx          pkg/tx.
--   Storage     pkg/storage: Chain (the records of chain.go and genesis.go), Store (the interface of
--               storage.go and metadata.go), Tree (the walk over a block's tree), MemStore with Walk
--               and Apply (memstore.go), TxSet (NewTxSet and NewBlock of chain.go), Validator
--               (validator.go) with Shared (IsBlockValid with its stores at addresses), Bloom (bloom.go).
--   Ipfs        internal/storage/ipfs.go: Keys (typedKey), Objects (putRaw to GetSet, AllTx), Index
--               (ApplyTx, MarkBlock, indexBlock), Genesis (ApplyGenesis and the last block applied),
--               Lookup (DIDs, nodes, blocks of transactions), History (DIDHistory) with Workers (its
--               goroutines as a step relation), Impl (the store as a Store); internal/coinflip.
--   Pool        pkg/did/consensus/mempool.go, with the parts of container/heap that it uses.
--   Consensus   pkg/did/consensus: Msg (msg.go), State (state.go), Engine (the fields and timers of
--               consensus.go), Send (its sending half, crypto.go), Blocks (blocks.go), Round
--               (proposer, startRound), Votes (onVote to onBlock), Handlers (onMsg, onProposal, the
--               timeouts), Events (what reaches an engine, and the engines that events lead to), New
--               (NewConsensus, options.go), Channels (p2p.go, the subscriptions of Start).
--   Stream      internal/stream/stream.go: the frames of messages on a network stream.
--   Did         internal/did/handler.go: Tips (requests for a tip, their answers, askForTip), Exchange
--               (two nodes at the ends of one stream), Start (NewHandler, Start).
--   Resolver    pkg/did/resolver: resolver.go, dns.go.
--   Comm        internal/comm with pkg/comm and pkg/did/publicIdentity.go: the records and signatures,
--               Server (serverHandler.go), Client (the handshake of clientHandler.go), Sending
--               (handler.go, sendOptions.go, the rest of clientHandler.go).
--   Host        internal/node: Advertise (p2p.go and identity.go, with pkg/did/privateIdentity.go),
--               Beacon (RandomSource of drand.go), Boot (node.go, options.go, identity.go).
--   Cli         internal/cli/em.go: the command `em send`.
--   Identities  internal/did/fileStore.go.
--   Examples    runs on concrete inputs.
-- The laws stand beside the definitions that they are about; Consensus has Invariant, Keeps, Frame,
-- Safety, Rounds, Handled, Received and Reachable on the way to Commit, Progress, and Overlap. Entries
-- of Ipfs says, apart from the code, which entries a block has in the metadata. A text is its UTF-8
-- bytes where the code makes a slice of it.
--
-- A method that changes its receiver is a function from the state to a result and the new state;
-- what it wrote before an error or a panic stays. An engine carries the store and the memory pool
-- that it shares, its two states, whether each timer is set, the grace periods that are due, and
-- what it published. The validator and the engine work over any store, the interface Store; the in-
-- memory store and the store over IPFS fill it. That one carries the state of its IPFS node, its
-- database of metadata, and the batch of a trial where it is one. A trial of the validator works on
-- a store that is dropped; Shared of Validator keeps both stores at their addresses. The engine
-- works over any memory pool, the interface MemPool.
--
-- Bounds and fuel: uint64 and uint32 wrap around where the code adds to them. The walk over a block's
-- tree has fuel for its first entry and for every child that an object of the store can add, since it
-- reads the children of a set once; the levels of a new tree have as much as there are leaves, since
-- a level is half as long as the one below. The walk of ApplyFromTip back to the last block that was
-- applied takes its fuel as an argument, and so does the walk over a tree on IPFS, whose objects have
-- no number. The loops on the heap have fuel for the length of their way, which is always enough. The
-- resolver has fuel for the six records that it follows and the error behind them. The loop of a
-- handler's Start takes the rounds of peers that it sees as a list, and has no result while it waits.
--
-- Parameters, since they are libraries: msgpack and protobuf, CIDs and their hashes, multihash and
-- base 58, keys and signatures, peer identifiers, bloom filters, pebble, the IPFS node, the network
-- with its router and its routing of providers, the DNS server, drand, the file system, the clock and
-- the random source.
--
-- Not modelled: concurrency inside a handler (each runs to its end before the next, as if one lock
-- were held; the workers of DIDHistory and the order in which peers answer are the exceptions),
-- opening and closing the IPFS node, the making of the libp2p host and of the drand client, the API
-- and the other commands, configuration and logging, which are input and output, and generated code.
-- Durations of timers are left out: a timer that was started can fire at any time.
pub mod Base
pub mod Resync
pub mod W3cdid
pub mod Tx
pub mod Storage
pub mod Consensus
pub mod Ipfs
pub mod Pool
pub mod Stream
pub mod Did
pub mod Resolver
pub mod Comm
pub mod Host
pub mod Cli
pub mod Identities
pub mod Examples
