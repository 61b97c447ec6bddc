-- ===== src/Lib.antt =====
-- The crawler joins the BitTorrent DHT with many nodes, collects the info hashes that other nodes ask
-- for and announce, counts them in a database, and downloads the metadata of the torrents.
--
-- How the parts interact. A node (internal/dht/node.go) receives a packet, decodes it as a KRPC
-- message (internal/dht/krpc.go) in bencode (internal/bt/bencode.go), notes the sender in its routing
-- table (internal/dht/routing.go, by the distance of internal/dht/id.go), answers, and passes an event
-- on for `get_peers` and `announce_peer`. The crawler (internal/crawler/crawler.go) adds the info hash
-- of each event to a cache that flushes to the database, and submits it to the download queue
-- (internal/crawler/cache.go), which the workers (internal/crawler/worker.go) are fed from.
--
-- Files. Bt/ models internal/bt/bencode.go: Value its `interface{}` values, Encode and Decode the two
-- directions, Access the getters, Received what an encoded value is decoded as, Decimal the numbers of
-- fmt and strconv. Dht/Id models internal/dht/id.go, Dht/Routing internal/dht/routing.go, Dht/Compact
-- the compact formats and Dht/Krpc the messages of internal/dht/krpc.go (Krpc/Receive its decoder and
-- getters), Dht/Token the tokens, Dht/Node the state and handlers, Dht/Active the queries that a node
-- sends by itself and Dht/Search its `FindPeers`, all of internal/dht/node.go. Crawler/Cache models
-- `HashCache` and Crawler/Queue `DownloadQueue` of internal/crawler/cache.go, with `InsertHashes` of
-- internal/storage/sqlite.go and `feedQueue` of internal/crawler/worker.go, Crawler/Jobs models
-- `processJob` of that file, Dht/Id/Generate `GenerateDistributedIDs`, Dht/Pool `FindPeers` and the
-- statistics of internal/dht/pool.go, and Crawler/Events models `processEvent` and Crawler/Search
-- `searchAndDownload` of internal/crawler/crawler.go; Crawler/Saved follows an announcement through
-- all of the crawler. Bt/Metadata models internal/bt/metadata.go: Wire the messages of a connection,
-- Handshake the two handshakes, Pieces `downloadMetadata`, Info `parseMetadata` and Session
-- `Download`. Storage models `Search` of internal/storage/sqlite.go and Web the pages of
-- internal/web/server.go. The files below each of these hold its theorems, named for what they prove.
-- Prelude holds what they share, and Tests the theorems at concrete inputs.
--
-- Correspondence. A Go function is the definition of its name in snake case, its receiver the last or
-- the first argument; a method that changes its receiver returns the new one. A method whose work is
-- behind one lock is one step; where a method takes its lock twice, as `Flush` does, or works outside
-- of it, as `Add` of `DownloadQueue` does with `LoadOrStore`, each part is a step of its own. The
-- steps of `feedQueue` and of the workers, with the channel of jobs between them, are in
-- Crawler/Queue; Crawler/Queue/Runs takes all of these in any order, and with them the return of the
-- feeder when the context is done. An error is `err`, and a panic, which ends the process, is `panic`.
-- Byte strings and texts are lists of numbers below 256, a Go map is the list of its entries or keys,
-- and a channel the list of what waits in it. A connection is what the peer will send, what was sent,
-- and the writes that will succeed: the end of either is a connection that is closed or past its
-- deadline. SHA-1 and dialling are parameters. The time is an argument, in nanoseconds where it is
-- compared. 64-bit counters wrap around. `int` has 64 bits.
--
-- Bounds. The decoder has fuel for one more round than its input has bytes, for the nesting and for
-- each loop, and every round consumes a byte; the loops over the messages of a connection have it for
-- one more round than there are bytes to come. An allocation above 2^48 bytes panics, as it does on
-- amd64.
--
-- Not modelled: sockets, goroutine scheduling, logging, the SQL database, which is a parameter with
-- its documented laws, the templates and the transport of the HTTP server, the command, and the start
-- of the pool. A search of a node runs alone, and what arrives while a node sleeps or waits is an
-- argument; so are what the other goroutines do to the queue between the submissions of
-- `searchAndDownload`, and the order in which the nodes of the pool end their searches.
pub mod Prelude
pub mod Bt
pub mod Dht
pub mod Crawler
pub mod Storage
pub mod Web
mod Tests
