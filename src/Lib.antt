-- ===== src/Lib.antt =====
-- The GM TLS library: TLS 1.3 with the Chinese algorithms SM2, SM3 and SM4, and a small EPP client on
-- top of it. A handshake exchanges messages (handshake.go, tls13_cert.go) whose extensions
-- (extensions.go) carry the offers; both ends derive keys from the shared secret and the transcript
-- (tls13.go); records (cipher.go, conn.go) protect what follows; after the handshake a connection
-- carries application data and session tickets, which a client stores and offers again (conn.go).
--
-- Files, by part of the program:
--
--   Base, Base/: lists, bytes, cursors over received bytes, outcomes of calls and methods with state.
--     Keeping has the steps that keep an order of states, Runs what holds at the end of a step, by
--     its outcome.
--   Extension, Extension/: extensions.go. Sni, Alpn, KeyShare; Uint16List for signature algorithms,
--     supported curves and supported versions; Modes for PSK modes, status request and the constant
--     extensions. `marshal_x_extension` is `marshalXExtension`, `parse_x_extension` is
--     `parseXExtension`.
--   Message, Message/: handshake.go and tls13_cert.go, a file per message with `marshal` and
--     `unmarshal` or `parse`; Extensions is the part that hellos share, RequestContent a proof.
--   Record, Record/: the record layer of conn.go and cipher.go. Gcm is `SM4GCMMode`, Layer is
--     `readRecord` and `writeRecord`, InnerType and Alert the helpers of conn.go; Nonce and Transfer
--     are proofs.
--   Schedule, Schedule/: tls13.go. Hkdf is the derivation function, Keys the single secrets, Material
--     `DeriveAllKeys`; Expand and Label are proofs.
--   Ticket, Ticket/: the session tickets of conn.go. Parse and Recognise read messages, Store is
--     `storeSessionTicket`, Offer is the offer to resume, Binder its proof of the key; Choice is a
--     proof.
--   Stream, Stream/: `Conn.Read`, `Conn.Write` and the tickets inside of application data; Quiet,
--     Termination and Transfer are proofs.
--   Suite, Suite/: the table of cipher.go and `selectCipherSuite`, `selectALPNProtocol` of conn.go.
--   Sm4, Sm4/: padding and block encryption of sm4.go.
--   Sm2, Sm2/: Keys is the key exchange of sm2.go, Signing the signatures of sm2_gmsm.go, Bytes the
--     unsigned numbers of math/big; Pem is `ParseSM2PublicKeyFromCertificate` of sm2_pem.go.
--   X25519, X25519/: x25519.go.
--   Handshake, Handshake/: the two handshakes of conn.go and verify.go. `Conn` has the fields that they
--     use. Content and Reading are `readTLS13HandshakeMsg`, Verify is verify.go, Accepted
--     an independent description of it, Secrets the keys, ClientHello, ServerHello and Shared the
--     client's hellos, Accept the server's, Auth what is read after the hellos and Send what is sent; Run puts them together as `clientHandshakeTLS13`,
--     `serverHandshakeTLS13`, `Client` and `Server`. A long method is a chain of steps in the order
--     of the source. The other files are proofs: Keeps, Outcomes, SendKeeps, SecretsKeep, HelloKeeps,
--     ServerHelloKeeps, AcceptKeeps on what the steps leave as it is, Proofs, CertificateRead,
--     Messages on the authentication, ServerProof and ClientProof what it leaves in the transcript,
--     ServerFlight and ClientFlight on a peer's flight, ClientSafety and ServerSafety on whole
--     handshakes, Suites.
--   Epp, Epp/: the frames of cmd/internal/eppclient/client.go.
--   Samples and the files Tests: concrete instances of the parameters, and the theorems at them.
--
-- How the code is modelled. Bytes and machine integers are natural numbers, with the wrap-around
-- written out where the code converts; a slice is a list. A function that reads a message moves a
-- cursor, the list of bytes that are left, where the code adds to an offset. A call returns `ok`,
-- `err`, or `panic` for a run-time panic; `stuck` is no behaviour of the code, but a loop of the model
-- that ran out of fuel. The texts of errors are the format strings. A method that changes its receiver
-- takes and returns the state, and keeps what was changed when it fails. A network connection is the
-- list of bytes still to come and the list of bytes sent. The clock stands still during a call.
--
-- Fuel. A loop over received bytes gets the number of bytes as its fuel, which is enough since every
-- round takes one byte at least; the loop of `Read` gets one more than the bytes still to come, and
-- every record takes five, and so do the loops that read records in the handshakes; the
-- loop for the Certificate message gets one more than the bytes of the buffer and of the connection,
-- of which every message takes one at least, because opening a record never gives more bytes than it
-- had.
--
-- Parameters. SM4-GCM (`Aead`), SM3 and HMAC (`Sm3`) and the block cipher (`BlockCipher`) are
-- libraries that the program calls; their records state the sizes of their results, that opening
-- undoes sealing and that it does not make data longer. The handshakes take a `Library` of them
-- with X.509 (`X509`), what the ASN.1 and X.509 libraries find in a certificate
-- (`CertificateReader`), the curves (`Curve`, `Curve25519`), of which nothing is assumed. The
-- random source is the list of its bytes; when it is empty, reading it is an error. Nil key
-- material, slices and strings are the empty ones.
--
-- Not modelled: PEM files, building and checking chains of certificates, SM2 and X25519
-- arithmetic, the signatures and encryption of sm2.go that the handshakes do not use, `SM3KDF`, the
-- CBC mode and `PKCS7Unpad` of sm4.go, copies of the configuration and the functions of the net
-- package in api.go, the command line. Callbacks and locks of the configuration have no effect on the
-- modelled state. The array behind the slice that `Encrypt` appends to is not modelled.
pub mod Base
pub mod Extension
pub mod Message
pub mod Sm2
pub mod X25519
pub mod Record
pub mod Schedule
pub mod Ticket
pub mod Stream
pub mod Suite
pub mod Handshake
pub mod Sm4
pub mod Epp
pub mod Samples
