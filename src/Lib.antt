-- ===== src/Lib.antt =====
-- A verification library for p2p-update, a peer-to-peer distributor of system updates.
--
-- The program. A server (server.go) keeps the newest notification of each update, which operators
-- POST over HTTP, and a STUN service with which agents register their addresses; it advertises the
-- peers to one another and broadcasts new notifications. An agent (agent.go, update.go) learns of
-- notifications from the server, from the overlay of peers (overlaysock.go, a connection driven by
-- the state machine of automata.go), from its REST service (api.go), and from the files of an
-- earlier run. It verifies them (notification.go), replaces older versions, downloads the content
-- as a torrent, and deploys it. The attributes that both sides put into STUN messages are in
-- common.go.
--
-- The files.
--   Common, Common/*: shared names, Boolean tests, lists, outcomes, byte strings, association lists.
--   Automata: automata.go. A map of maps is an association list of association lists; `raise` is
--     Event without the call of the callback, which it returns.
--   Stun: the interface of the STUN library: messages, attributes, and what `Build` does.
--   Peer: the types of common.go: PeerID, TorrentPorts, Session, SessionTable, validateMessage.
--     Peer/Json: SessionTable.JSON.
--   Notification: Sign and Verify of notification.go. Notification/Creating: NewNotification.
--     Notification/Files: ReadNotification, LoadNotificationFromFile and Write.
--   Update: the Update of update.go and its deployment: deploy, deployWith, the deployers, Unzip.
--   Agent: the table of updates of agent.go, and Start, Stop, Delete and Save of update.go, on a heap
--     of updates. Agent/Sources: readTCP, readOverlay, loadUpdates, startGossip. Agent/Monitoring:
--     a round of monitor. Agent/Sharing, Agent/Provenance: the map of signatures that updates from the
--     overlay share, and what stays verified.
--     Agent/Locking: monitor, Stop and Delete as interleaved steps. Agent/Files:
--     LoadUpdateFromFile, and loadUpdates with the reads of the files.
--   Overlay: overlaysock.go: the connection and the callbacks of its states. Overlay/Machine: a step
--     runs the pending callback with the answers of the network and raises its event. Overlay/Io:
--     reading, writing, the multicast, Close and the deadlines. Overlay/KeepAlive: sendKeepAlive.
--     Overlay/Socket: overlayUDPConn.
--   Server: the STUN service of server.go. Server/Updates: its HTTP service and database.
--     Server/Startup: NewServer and the flags of serverCmd (main.go). Server/Serving: the reader of
--     datagrams, the workers, the HTTP requests and the timers as interleaved steps.
--   Api: the routing of api.go and its requests on updates. Api/Handler: the whole request handler and
--     rebroadcastUpdate. Api/Views: what the views write.
--   Serial: RaspberryPiSerial of common.go. Local: its other functions on the identity and the
--     addresses of the machine. Keys: LoadPrivateKey and LoadPublicKey.
--   Config: the configuration of agent.go. TorrentPort: torrentClientConfig and bindRandomPort.
--     Launch: NewAgent, and agentCmd of main.go.
--   Command: submitCmd of main.go. Command/Submitting: its requests answered by an agent and a server.
--   Program: the commands of main.go with their flags, and serverCmd.
--   Distribution: a GET of readTCP answered by the server of server.go. Network: a running server and
--     any number of agents as interleaved steps.
--   Shutdown: Stop, Wait and the signals of the agent. Timers: ExecEvery of common.go.
--   Fixtures and the Tests modules: concrete instances, and runs of the definitions on them.
--
-- Correspondence. Methods keep their names in snake case (`add_update` is Agent.addUpdate). A pointer
-- to an Update is an address on the agent's heap. Every operation returns the new state; an error is
-- a constructor of a result, and a panic is one too (`panic`, `panicked`, `panics`, `crashed`, or
-- `none` where the comment says so). The order in which Go visits a map is that of the list, which
-- is arbitrary. Log lines are left out, unless an index in one can panic.
--
-- Parameters. The STUN library (`Stun`), msgpack (`Msgpack`), JSON, SHA-256 and RSA (`Crypto`), the
-- operating system and the clock (`System`), the torrent library and the file system (`Host`), what a
-- command meets (`Surroundings`), package net (`Net`), PEM and X.509 (`Pem`), and the machine that an
-- agent is started on (`Machine`). What is assumed of them stands as a hypothesis where it is used:
-- that an attribute which was added is found (`AttributeLaws`), that a key pair fits (`KeysFit`), that
-- different names without a slash give different paths in a directory, that a nil address is no IPv4
-- address, and that a random number is below the bound asked for. The tests have an instance of each.
--
-- Bounds. Versions, ports, counters and times are natural numbers; a port is cut to 32 bits where
-- the code does so, and a decimal numeral has twenty digits, which is enough for 64 bits (Agent/Naming
-- and TorrentPort/Numerals use that they are read back). The run of the overlay takes one step for
-- each answer of the network; theorems are about every such list. The fifty attempts to map a port
-- and the five rounds of a broadcast are counted down. The running server is a relation of steps, with
-- the hundred places of its channel and its three workers as tests of the steps.
--
-- JSON. What a server writes to its database, answers to a GET and gets in a POST is the value that
-- the encoder is given or the decoder returns, not its text: one JSON library is on both sides.
-- Maps. A map is a value in the model. Where the program shares one and writes into it, the model
-- does too: the signatures of bufNotification (Agent/Sources), whose lists are taken to be made anew
-- by each decoding. Where goroutines use one at the same
-- time, that is a step which ends the process (`collide` in Server/Serving).
--
-- Not modelled: log files, the listeners of the two servers, PieceLength (floating-point arithmetic,
-- and nothing calls it), and the text of log lines (Update.String).
pub mod Common
mod Fixtures
pub mod Automata
pub mod Stun
pub mod Peer
pub mod Overlay
pub mod Notification
pub mod Update
pub mod Agent
pub mod Server
pub mod Api
pub mod Command
pub mod Distribution
pub mod Network
pub mod Shutdown
pub mod Timers
pub mod Serial
pub mod Local
pub mod Config
pub mod TorrentPort
pub mod Keys
pub mod Launch
pub mod Program
