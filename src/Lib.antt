-- ===== src/Lib.antt =====
-- Chimera-core: a proxy whose client speaks SOCKS5 to its user and reaches the server by TCP (REALITY,
-- then a session header, then a padded stream) or by QUIC (HTTP/3 CONNECT with a signed request, and
-- UDP in HTTP Datagrams). This library models its Go code and proves what the parts rely on.
--
-- The parts and their files:
-- - Chimera/Session, Chimera/Ip and Chimera/Address: internal/chimera/chimera.go, the session header
--   and response, WriteAddress and ReadAddress and the connect request. A writer is the bytes that it
--   writes, and a reader the bytes that are to come; an error is a value of `WireError`.
-- - Chimera/Guard and Chimera/Resolve: internal/chimera/guard.go, the addresses that a server refuses
--   to dial and ResolveAndValidateAuthority. The resolver, net.ParseIP and net.IP.String are
--   parameters.
-- - Padstream: internal/padstream/padstream.go. `Conn` has the fields of the Go struct, a raw connection
--   with faults, and the count of the random numbers drawn from a parameter. `write_frame` is a round
--   of Write, `read_loop` the loop of Read, `keep_alive_frame` the body of maybeKeepAlive.
-- - Udp: internal/quicx/udp_codec.go. `encode` and `decode` are the methods Encode and Decode, each a
--   step under the lock; the time is an argument. The map of assemblies is an association list whose
--   order stands for the order of Go's range, and every theorem holds for any order.
-- - Auth/Replay: the replay cache of internal/quicx/auth.go, the map and the list; Auth/Token: keys,
--   Sign and Validate. HMAC-SHA256 and HKDF are parameters.
-- - Limiter: internal/quicx/limiter.go, the semaphore and the token buckets, counted exactly in units of
--   1/perIPWindow of a token. Rounding of float64 is not modelled.
-- - Client: cmd/chimera-client/main.go, the SOCKS5 side, the choice of the transport, ownedConn and the
--   options.
-- - Decoy: internal/quicx/decoy.go, the page for visitors that are not authenticated. The fetch of the
--   site is a parameter.
-- - Server: cmd/chimera-server/main.go, the options and the derivation of the keys.
-- - Carrier: handleConn of cmd/chimera-server/main.go and dialChimeraTCP of
--   cmd/chimera-client/main.go. The readers of internal/chimera/chimera.go stand here once more, over
--   a padded connection: `take_address` is ReadAddress there. Carrier/Padded relates the two.
-- - Quic/Admission and Quic/Handler: ServeHTTP of internal/quicx/server.go and serveUDPSession of
--   internal/quicx/udp.go, a request at a time, with their effects in order; Quic/Admission/System is the
--   transition system of requests that run at once. The dials and sockets are a parameter, `Network`.
-- - Quic/Start and Quic/Config: ListenServerWithConfig and Close of server.go, and config.go. Sockets,
--   listeners and the environment are what they answer.
-- - Quic/UdpSession: the two goroutines of serveUDPSession, as steps in any order; Quic/UdpConn:
--   internal/quicx/udp_client.go, the client's end, with the datagrams sent and received.
-- - Quic/Client: internal/quicx/client.go; Quic/Cert: internal/quicx/cert.go over a file system whose
--   calls can fail. x509, tls, pem and SHA-256 are parameters. Quic/Sample holds the tests' server.
-- - Prelude: bytes and their words, io.ReadFull, maps, texts of ASCII codes, base64, signed numbers.
--
-- How they meet: the client reads a target from SOCKS5 (Client/Socks) and the address codec carries it to
-- the server (Client/Socks/Forward with Chimera/Address/Laws). The padded stream carries the connect
-- request and the data (Padstream/Roundtrip); Carrier/Request is about the request on its way from the
-- client's dial to the server's target, Carrier/Through about the answer too. A QUIC request is signed
-- and checked by Auth/Token, whose nonces go to Auth/Replay, and is slowed by Limiter; its UDP packets
-- go through Udp/Roundtrip.
-- Quic/Client/Through joins DialTCP with ServeHTTP, and Quic/UdpConn/Relay the client's UDP connection with
-- the server's session, in both directions.
--
-- Bounds and fuel: `fragment_loop` has the packet's length as fuel and takes a byte at least in each
-- round; `read_loop` has one more than the bytes to come; `write_loop` has the length of the slice;
-- `format_uint` has the five digits of a port; io.ReadFull over a padded connection has one more than the
-- bytes that it wants (Padstream/Ending). Times are nanoseconds as natural numbers, which do not wrap; widths of 8, 16, 32 and 64 bits are written out where the code narrows a value. `add` of the
-- replay cache returns none where the Go loop would not end.
--
-- Not modelled: the REALITY and uTLS handshakes and the HTTP/3 and TLS libraries, which are other projects'
-- code; the relays (Relay, relayH3Stream), goroutines that copy bytes until one direction ends; key pairs
-- (GenerateKeyPair); the main functions with their flags and listeners, and renderSystemdUnit, which writes a
-- text. Locks make each modelled call a single step.
pub mod Prelude
pub mod Chimera
pub mod Udp
pub mod Padstream
pub mod Auth
pub mod Limiter
pub mod Client
pub mod Server
pub mod Decoy
pub mod Quic
pub mod Carrier
