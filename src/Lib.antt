-- ===== src/Lib.antt =====
-- The server of the online services of Burnout Paradise, and its models.
--
-- A console connects to the directory and login service over EASO frames (easo/frame.go), or over a channel
-- with a MAC and two RC4 streams (easo/secure_easo.go). Every connection runs its own loop
-- (bpserver/handlers.go). The loops share one lobby under a lock (bpserver/lobby.go): a client creates it, others
-- join, the host updates, starts and kicks, and the race ends when the results are reported. Each change makes a
-- game record (bpserver/record.go) from the fields of a request (bpserver/helpers.go), which is sent to the
-- players of the lobby. The directory connections run over a small TLS server (legacytls).
--
-- The modules:
--   Io              readers and writers: io.ReadFull, and writers that take a packet in pieces
--   Easo.Frame      easo/frame.go: Read, from any reader (Reader), and Write
--   Crypto          the RC4 cipher, written out, and the MD5 digest, an interface
--   Easo.Secure     easo/secure_easo.go: NewSecureEASO, Read, Write, writeAll
--   Text, Number    what is used of the packages strings, unicode and strconv
--   Net             what is used of the package net, an interface
--   Payload         bpserver/helpers.go: fields of payloads, cleaned values, names, addresses, and what is
--                   logged of a payload (Secrets)
--   Record          bpserver/record.go: rank lists, road rules, game records, presence records
--   Persona         bpserver/server.go: personaIDFor
--   Types           bpserver/types.go: the server, its clients, the lobby
--   Challenge       bpserver/types.go, helpers.go: serverChallenge, mustDecodeHex
--   Lobby           bpserver/lobby.go: the merge of requests, the order of rosters, the operations (Ops), the
--                   notifications (Notify)
--   Handlers        bpserver/handlers.go: the state of a connection, and the types of the frames
--     Replies       the payloads of the replies; Writes, Games: what a handler writes, calls and announces
--     Cases         the cases of the switch over a frame's type
--     Handle        the switch and the loop of handleConnection; Reply, Actions, Calls and Effects are about them
--     World         the connections of a server: the ticket, new connections, frames, ticks, ends
--   Start           bpserver/server.go: New, ParseSessionID, Serve (Serving)
--   Certificate     bpserver/certificate.go, legacytls/config.go: self-signed certificates, the check of a
--                   configuration (Checks), LoadKeyPair (Load)
--   Command         cmd/bpserver/main.go: from the flags to a server (Ready), without flags (Defaults)
--   Tls             legacytls/conn.go, types.go: readRecord, writeRecord, recordMAC
--     Messages      splitHandshake, handshakeMessage
--     Keys          masterSecret, expandKeys, finishedVerify, prf, pHash, ssl3Generate
--     Handshake     handshake, in stages
--     Stream        Conn.Read, Conn.Write; io.ReadFull (Full) and packets (Sending) over them
--     Client        what a proper client sends and is told, as an independent description, and the handshake with it
--     Connection    Server, Accept, and the handshake that the first Read or Write makes
--     Frames        EASO frames over a TLS connection
--   Examples        the theorems at concrete inputs
--
-- A string is the list of its bytes. A pointer to a client is a number, 0 for nil, and the server's record holds
-- the store that the pointers lead into, so that an address or a parameter of a client which an operation writes
-- is seen by every later record. The map of the reports is the list of its keys. A lobby operation is one step,
-- since the code holds the lock for the whole of it; it returns the server and what the caller sends. The
-- connections of the notifications are a function that decides whether a write succeeds. A handler works on its
-- own variables, the server and the frames that were sent so far; it handles a frame as one step. A TLS connection
-- reads from the bytes that are left of its stream; hashes, HMAC, RSA, the clock and random bytes are interfaces.
--
-- The loop of a write is on fuel: each round takes a byte at least, so the length of the packet is enough, and
-- the theorems on writes say that the result is there. The text of a number has at most as many digits as the
-- number's successor. The derivations of TLS add a byte in each round, a handshake message takes four bytes at
-- least, a chunk of a write one, and a record five, which gives the fuel of these loops; so does the text of a
-- certificate file, which is shorter behind each block. A number has at most as many bits as its value. A packet's
-- length and identifier are 32-bit words with their wrap-around written out.
--
-- Not modelled: interleavings of two handlers within a frame, and of the reads of a TLS connection with its
-- writes; the parsing of flags, signals, and the shutdown of a server. What a TLS handshake sent before an error
-- is not kept. Logging and tracing have no effect on the state and are left out, but for the fields of a payload
-- that are logged. The packages for X.509, PEM, RSA and files are interfaces.
mod Common
pub mod Io
pub mod Crypto
pub mod Text
pub mod Number
pub mod Net
pub mod Types
pub mod Payload
pub mod Record
pub mod Persona
pub mod Lobby
pub mod Easo
pub mod Challenge
pub mod Handlers
pub mod Start
pub mod Tls
pub mod Certificate
pub mod Command
pub mod Examples
