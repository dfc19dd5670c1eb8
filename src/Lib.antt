-- ===== src/Lib.antt =====
-- Cloister is an edge worker with durable objects: a router in front of routes, a lease gate that
-- authenticates each request, stores behind it, and a wire format for signed receipts. This library
-- models the stores and the limits that decide whether a request is let through, the gate itself, the
-- creation of a bead across three stores with the origins that it records, the container registry over the
-- blob store, the disclosure of a peer's chain with signed cursors, and the receipts' encoding.
--
-- Which file models what:
-- - Prelude and its children: the tests, the list functions and lemmas, equality of keys, sorting,
--   results and texts that the other files share.
-- - Table: a SQL table as the list of its rows in rowid order, with the statements that the storage
--   helpers send to it (INSERT ... ON CONFLICT, UPDATE, DELETE, SELECT); Table/Laws has their lemmas.
--   SQLite itself is not under the repository; these are the documented effects of those statements.
-- - Storage/X for each helper src/storage/x.ts, a function for each of its functions by the same name:
--   SeenNonces (recordSeenNonce, pruneSeenNoncesBefore), PeerLeaseCounters (applyLeaseCounter and its
--   steps), PendingAttestations (the retry queue), PeerAttestations (the attestation chains),
--   PeerReceipts and ActorCaBundle (receipts and the epochs they were signed in), RegistryTags and
--   RegistryMembership (the OCI index). The child of each file has its theorems.
-- - TrustStore: the class TrustStore of src/trust-store.ts. Its record has one field for each table and
--   the time of the alarm. verifyLeaseAndAdvanceChain, drainPendingRetries, peerHasChain and alarm are
--   written out there; TrustStore/Rpc has the methods that pass on to one helper. Where two names would
--   clash, the method has the prefix rpc_.
-- - Vault/RateBucket: vault/src/rate-bucket.ts. Routes/PreAuthBudget: src/routes/pre-auth-budget.ts.
-- - Storage/Workerd: src/storage/workerd.ts, the blob store that src/blob-store.ts wraps, for any chunk
--   size; its child Refs has the compare-and-set of the ref store. Contents relates the two tables of the
--   blob store to a map from digests to contents.
-- - Storage/CaBundleCache: src/storage/ca-bundle-cache.ts and src/storage/ca-bundle-source.ts; the
--   module-level cache is an argument and a result.
-- - Routes/LeaseMiddleware: src/routes/lease-middleware.ts. Its children Headers and Scope have
--   parseAuthHeaders, deriveRequestScope and scopeAllows; verifyAndUpsertLease is authorize, which reads
--   no state, followed by record_lease, which asks the TrustStore; gateAndVerify puts the environment's
--   gate, the cache and the TrustStore together. The call of verifyLeaseAndAdvanceChain may be lost or have
--   its reply lost (lease_call, a Hop of Routes/Hop): nothing catches the exception. Wire/SignetVerify: verifyCertChain and the reading of
--   the claims in src/wire/signet-verify.ts.
-- - Wire/Origin: src/wire/origin.ts; a set of trusted authorities is its membership test.
-- - Routes/BeadCreate: src/routes/bead-create-orchestrator.ts, whose steps change the blob store, the
--   store of the rows and the TrustStore. Content has the bounds and the choice of the backend, Origins
--   buildContentOrigins, and Rsry createBeadViaRsry.
-- - Routes/OciRegistry: src/routes/oci-registry.ts, the class OciRegistryRoute. The state is its map of
--   upload sessions, the blob store, and the gate's cache and TrustStore. Names has the forms of
--   repositories, tags and digests, Responses the builders, Pull the reads, Push the gate, the checks and the
--   store that the writes share, Uploads the writes of blobs (openings, PATCH, finalize and the single
--   request) and ManifestPut that of a manifest; match and handle are matches and handle of the parent.
-- - Storage/DisclosureCursor: src/storage/disclosure-cursor.ts. Routes/Disclosure: src/routes/disclosure.ts,
--   class DisclosureRoute, with the records of its stream in Records; Paging has the page of a start and
--   the cursor of the next one, with the lemmas on its rows in Rows.
-- - Routes/LeaseGate: src/routes/lease-gate.ts. Routes/Router: src/router.ts, for any routes.
-- - Wire/RunId: src/wire/run-id.ts, with BLAKE3 as a parameter.
-- - Wire/Cbor: the encoder of src/wire/receipts-cbor.ts, and Wire/Cbor/Decode its decoder.
--
-- How the code is read:
-- - A method of the TrustStore is a step from state to state. Methods that await inside
--   blockConcurrencyWhile hold the input gate, so no other method runs between their reads and writes.
--   The drain takes the gate once for each row; here a drain runs with no other method between its rows.
-- - transactionSync runs its callback on the state and keeps the state from before it if it throws.
-- - Times, counts and token counts are natural numbers. Token counts are in hundredths of a token, which
--   makes every refill of a whole number of milliseconds exact; the floating point of the source is not
--   modelled. A subtraction that would be negative is written as the source guards it (Math.max(0, ...)),
--   except for the cutoff of the sweep, where a cutoff before time 0 deletes as little as time 0 does.
-- - The slices of a large blob are cut on fuel, as many rounds as it has bytes; each round takes one at
--   least. The two hashes of the blob store are parameters.
-- - SHA-256 is a parameter: a function from a text to the bytes of its digest.
-- - The other functions of the runtime that the lease path calls (atob, btoa, JSON.parse, Ed25519, the
--   WebAssembly check of a certificate, and the signature check and fetch of a bundle) are parameters
--   too, in the record Runtime. An exception that the source does not catch is a value of its own.
-- - A call from the creation of a bead to another object is reached, lost on its way, or has its reply
--   lost after its effect; which of these happens to each call is an argument. So are the writer of the
--   row, which gets the tool's arguments with the id, the repository and the digest, the canonical bytes, the digest, and what other calls do to the TrustStore while a creation is
--   between its two calls. The codes of JSON-RPC errors are written without their minus sign.
-- - The registry's route handles one request at a time, and a request's body is read once. The URL patterns
--   with their groups, the hashes as hexadecimal texts, Request.text() on a body and the field mediaType
--   of a JSON body are parameters, in the record Platform; the JSON of a response is kept as its object. A
--   session carries the key under which it stands in the map. An exception of the gate or of the blob
--   store, which the route does not catch, is a value of its own.
-- - The disclosure's HMAC and its key, base64, the JSON functions and the text codecs are the record
--   CursorRuntime, over any type of keys; the URL's parts are fields of the request. A refusal is its number
--   of zeros, and a line of the stream its record. The numbers of a cursor
--   are natural. How long a request takes is not modelled.
-- - A text in Wire/Cbor is held as its UTF-8 bytes. TextDecoder followed by TextEncoder is a parameter,
--   and the round trip asks that the texts of the value are unchanged by it. A decoded map is the object's
--   own properties: the order of the fields is that of the bytes, a later field of the same key replaces
--   the value, and an assignment to "__proto__" makes none. sorted_value is a value with the fields of its
--   maps in the order of their encoded keys. The decoder runs on fuel, two
--   rounds for each byte of the input and one: a value or a round of a loop takes one, and each item and
--   each field has a byte of its own. The 32-bit result of | in readArgument is written out by its sign.
--
-- Not modelled: the listing of refs by prefix, the durable object of the bead rows, the routes for MCP
-- and the vault, the Workers runtime, logging, generated code, the command line, and the
-- code in other languages.
pub mod Prelude
pub mod Table
pub mod Storage
pub mod TrustStore
pub mod Vault
pub mod Routes
pub mod Wire
