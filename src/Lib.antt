-- ===== src/Lib.antt =====
-- Verification of dmsg, a messaging network in which clients hold connections to servers and open
-- transports to one another through them.
--
-- The parts, and how they interact. A client (client.go) finds servers by the entries of a
-- discovery (disc/), keeps a connection with each that it uses, and publishes them in its own
-- entry; Dial looks up the entry of the peer, and dials over a server that the peer delegates to.
-- A client's connection with a server carries frames (frame.go) of many transports, told apart by
-- 16-bit ids. DialTransport (client_conn.go) takes an even id and writes a REQUEST; the server
-- (server.go) takes an odd id at the other client's connection, ties the two ids together as
-- routes, and passes the REQUEST on; that client hands a new transport to the listener of the port
-- (listener.go, port_manager.go) and answers with an ACCEPT. From then on the frames FWD, ACK and
-- CLOSE follow the routes. A transport (transport.go) is a byte stream: a Write sends one FWD frame
-- with a sequence number and waits for its ACK (ioutil/ack_waiter.go); Serve buffers what FWD
-- frames bring and acknowledges it, and holds ACKs back while its read buffer is full. The
-- connections run over noise sessions (noise/).
--
-- Which file models which part:
--   Prelude            shared names, Boolean tests, lists, maps, words, errors
--   Frame              frame.go: MakeFrame, the accessors, readFrame, ids, key pairs
--   Ioutil/Seq, Ioutil/AckWaiter, Ioutil/AtomicBool, Ioutil/BufRead      ioutil/
--   Transport          transport.go: the state, serve, close, Close
--   Transport/Serving  HandleFrame, and the loop of Serve
--   Transport/Reading  Read; Transport/Writing  Write
--   Transport/Handshake  WriteRequest, WriteAccept, ReadAccept
--   Listener           listener.go; Listener/Ports  port_manager.go
--   Server             server.go: NextConn, ServerConn, and the map of connections of Server
--   Server/Lifecycle   server.go: NewServer, Serve, Close, and the entry in the discovery
--   ClientConn         client_conn.go
--   ClientConn/Steps   client_conn.go: the goroutines of the REQUESTs, step by step
--   Client             client.go
--   Noise              noise/noise.go and noise/read_writer.go, of an established session
--   Noise/Handshake    noise/noise.go and noise/read_writer.go: the handshake
--   Noise/Conn, Noise/Dialer, Noise/Listener   noise/net.go: Conn.Write; RPCClientDialer; WrapConn
--                      and Accept
--   Cipher             cipher/cipher.go: the texts of public keys
--   Disc               disc/entry.go and the client of disc/testing.go
--   Disc/Api           APIClient of disc/client.go, and the constructors and Copy of disc/entry.go
--   Disc/Messages      disc/entry.go: the errors by their messages
--   Disc/Http          disc/client.go: the HTTP client
--   Network            the two ends of a transport, the streams to and from a server, and the
--                      server, put together from Transport, Frame and Server
--   Network/Dial       DialTransport, from one client through the server to another and back
--   Tests              concrete runs
-- The other files below these hold the proofs, named for what they are about.
--
-- How. An operation is a function from the state to its result and the state after it, with the
-- name of the Go function in snake case; a lock makes it one step. What a goroutine does between
-- two blocking points is one step, and a theorem over any sequence of steps covers the
-- interleavings. A panic, of an index out of range, of a nil pointer, of a second close of a
-- channel or of a send on a closed one, is `none`; so is a call that blocks, where its comment says
-- so. Byte strings are lists of numbers, 16-, 32- and 64-bit words are natural numbers, reduced
-- where the source wraps around. Whether a write succeeds, and when a context ends, are arguments.
-- JSON, HTTP, the ciphers and signatures are parameters: records of functions, with what is assumed
-- of them among a theorem's hypotheses. The discovery is an interface, ApiClient, which the mock
-- client fills, and which the client and the server take as a parameter.
--
-- Bounds and fuel. Read jumps back to its start at most once, so two turns are enough. The searches
-- for a free id of addNext and getNextInitID try every second 16-bit number, so they need fuel for
-- 32768 turns at most. The update loop of the discovery's client needs two turns while no one else
-- changes the entry. The loops that wait for servers or for the discovery end with their context:
-- they need fuel for one turn more than the turns before that.
--
-- Not modelled: TCP, so an attempt to connect, with its handshake, is a parameter of a client; and
-- noise/dh.go and the rest of cipher/, which wrap packages from outside the repository; timers and
-- deadlines; logging, options, and the text forms of values. A dial is run through with no other
-- step between its own; memory shared between a frame and a buffer is not modelled.
pub mod Prelude
pub mod Ioutil
pub mod Frame
pub mod Transport
pub mod Listener
pub mod Server
pub mod ClientConn
pub mod Client
pub mod Noise
pub mod Cipher
pub mod Disc
pub mod Network
pub mod Tests
