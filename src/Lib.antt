-- ===== src/Lib.antt =====
-- Model of the EST service (RFC 7030 enrollment over HTTPS, with certificates signed by OpenBao).
--
-- A request passes the rate limiter (pkg/server/ratelimit.go) and reaches a handler (pkg/handlers),
-- which authenticates it with the manager of pkg/auth, reads and checks the CSR with pkg/est, has it
-- signed through the interface of pkg/backend and writes the response. Behind the interface a client
-- of OpenBao sends the requests; each signing uses a client that is cloned with the requester's token
-- and closed again. The configuration of pkg/config decides the methods, limits and policies;
-- cmd/est-service/main.go passes it on.
--
-- Files:
--   X509, KeyCrypto, Pem
--                     what the code calls and this library does not define: crypto, encoding/pem
--                     and asn1 as the records Crypto, KeyCrypto and PemCrypto; every theorem holds
--                     for all of their values, under the named hypotheses; Pem also has the loop over
--                     the certificates of a text, and Pem/Laws its end
--   Http, World       requests, responses, and the state that a handler acts on: the backend's
--                     state, the calls made, the metrics, the audit log, the credentials buffer
--   Est               pkg/est: Slices (stringSlicesEqual and its kin), Algorithm (signature
--                     algorithms), Payload (ReadCSRPayloadWithLimit), Reenroll (the checks against a
--                     client certificate), Asn1 and Pkcs7 (the container, written and read)
--   Auth              pkg/auth/manager.go; Evidence in Auth/Laws is its contract, Auth/Kept what it
--                     keeps of the backend's state
--   Backend           the interface of pkg/backend/backend.go as a record, and the OpenBao clients
--                     behind it: Api (the API client, a parameter), Objects (the table of client
--                     objects, clones and closing; the clients of
--                     LookupToken are apart), Pki, Logins, Identity and Transit (the methods of
--                     common_impl.go), Start (NewBackend and the renewal loop), Common (the methods
--                     as the interface)
--   Handlers          pkg/handlers: Policy (types.go), Errors (errors.go), Base
--                     (base_enrollment.go), Enroll (simpleenroll.go), Reenroll (simplereenroll.go);
--                     Outcome in Handlers/Base/Outcome is the handlers' contract; KeyGen
--                     (serverkeygen.go, with Keys, Encode, Answer and Serve for the key, its
--                     encryption, the answer and the handler; Outcome in it is the contract);
--                     CaCerts (cacerts.go), CsrAttrs (csrattrs.go); Kept, what the handlers keep
--                     of the backend's state
--   Config            pkg/config: the configuration, Defaults (applyDefaults), Validate (validate),
--                     Load (Load)
--   Server            pkg/server: RateLimit (ratelimit.go), with its maps as association lists, and
--                     one token bucket for each address as its contract (Isolation); Middleware and
--                     Status (the middleware and the health handlers of server.go)
--   Service           cmd/est-service/main.go: the configuration that the handlers get; Tokens, the
--                     whole path of a request from the handlers to the OpenBao clients
--   Prelude           lists, texts, Go's errors and signed integers
--   Tests             runs at concrete inputs
--
-- A Go method is a function of its receiver and arguments; one that changes state also takes and
-- returns the state. An error is a value with its text, and a flag for the one error that is tested
-- with errors.Is. A step of a handler that may end the request returns an Option. The use of a nil
-- pointer is a flag of the state. Integers that the code compares are ℤ; the limit of a body is tested
-- with the wrap-around of its increment. Loops are structural recursions on lists, but for the loops
-- over the blocks of a text and the elements of a container, whose fuel is the length and one: each
-- step consumes a byte at least (Pem/Laws and Est/Pkcs7/Laws show that it is enough).
--
-- Not modelled: logging, exporters of metrics and traces, the goroutines' scheduling, failures of
-- writes to a client; the routes, TLS setup and lifecycle of pkg/server/server.go.
pub mod Auth
pub mod Backend
pub mod Config
pub mod Est
pub mod Handlers
pub mod Http
pub mod KeyCrypto
pub mod Pem
pub mod Prelude
pub mod Server
pub mod Service
pub mod Tests
pub mod World
pub mod X509
