-- ===== src/Lib.antt =====
-- overlay-s3: an S3 gateway that serves a writable overlay on top of a read-only baseline.
--
-- Parts, and the files that model them:
--  * store.go, the data and the interface Store: Store.antt. A store is a record of calls; a call
--    acts on a world and returns an outcome. Base/Exec.antt has outcomes, errors and their
--    handling, and Base/Exec/Rules.antt the claims on what a call leaves and answers that follow
--    the code through its calls, tests and handled errors.
--  * overlay.go: Overlay.antt. Overlay/Entries is listEntry and mergePageEntries, Overlay/Sessions
--    the table of resume positions (create, lookup, gcLocked), Overlay/Cursor the listCursor (load,
--    peek, next, snapshot), Overlay/Listing ListPage, Overlay/Buckets the union in ListBuckets, and
--    Overlay/Gateway overlayStore as a store of its own, over a world with both stores and the
--    table.
--  * remote.go: Remote/KeyMap is the mapping of client buckets and keys (joinKey, mapKey,
--    listPrefix, backendPrefix, unmapKey, unmap, unmapPrefixRoot). Remote/Client has the calls of
--    the AWS SDK, as a record, Remote/Calls the methods on single objects (Get to CreateBucket),
--    Remote/Listings those that list and the multipart calls, with Remote/Outputs for what they
--    make of an answer, and Remote/Mapped s3Store as a store. Remote/Holdings says what a backend
--    answers that holds objects, and Remote/Serves is about s3Store over it. Remote/Backend says
--    what the SDK's calls read and write, and Remote/Loops, Remote/Ending, Remote/Unchanged,
--    Remote/Listed and Remote/View take the methods through their paging loops to the listings that
--    they give.
--  * sigv4.go: Signature/Chunked is awsChunkedReader, Signature/Encoding awsEncode and
--    canonicalURI, Signature/Verify what the checks read of a request, Signature/Check verifySigV4
--    and canonicalQueryString, Signature/Middleware its decision and hashVerifyingReader, and
--    Signature/Fields authFields. Server/Gate is the middleware as a handler before another.
--  * protocol.go: Protocol.antt, splitPath and parseS3Request on the path, the query and the
--    headers that net/http hands over.
--  * handlers.go: Range.antt is parseByteRange and the header of a range; Server.antt has the
--    documents and the mapping of errors to answers, Server/Answers what the handlers read of a
--    request and write of a result, Server/Handlers each handler, dispatch and ServeHTTP.
--  * s3xml.go: Server/Xml, the elements of each document; Server/Markup the bytes that encoding/xml
--    writes for them, and Server/Markup/Reading a reading of such bytes that knows nothing of
--    documents.
--  * main.go: Startup.antt, from the flags through newS3Client, newRemoteStore, newMappedStore and
--    EnsureBucket to the handler that is served.
--  * Go's texts, integers, maps and numerals: Base/Strings, Base/Text, Base/Int, Base/Assoc and
--    Base/Decimal. An int64 is an integer with its wrap-around at 2^63 written out; uint64 ids are
--    taken modulo 2^64.
--  * Tests.antt: two stores in memory, and each result at an input of its own.
--
-- main hands two of remote.go's stores to Overlay.Gateway.overlay_store and puts the middleware
-- before the server where there is an access key. A request goes from Server.Handlers.serve_http
-- through Protocol.parse_s3_request to a handler, which calls the store it is given; with
-- Overlay.Gateway.overlay_store as that store, the calls go on to the overlay and the baseline.
--
-- Clocks are functions of the world, counted in nanoseconds. The mutex of the session table makes
-- its operations one sequence. A cursor's load fetches pages until one has entries: it runs on fuel,
-- and the listing theorems ask for more fuel than the backend has pages, which gives the result;
-- less gives `no_return`. The loop of ListPage needs no fuel: each round appends one entry, so it is
-- by recursion on MaxKeys. The paging loops of remote.go run on fuel in the same way. A read of a
-- chunked body is one step; the caller's calls, and what the reader below gives to each, are a list.
--
-- A read of a body in aws-chunked framing can panic, on a chunk of negative size: the request then
-- carries `panics`, the calls that read its body give `no_return`, and so does the handler, as
-- net/http drops the connection without an answer.
--
-- Parameters, for code outside the repository: the calls of the AWS SDK with its LoadDefaultConfig
-- and NewFromConfig, the decoding of an XML completion request, the text of an error, the hash, the
-- HMAC, and the reading and the format of a date. Texts of requests are ASCII where they are trimmed
-- or put in lower case, texts of documents are valid UTF-8, and error messages leave out the quoted
-- values.
--
-- Not modelled: the set-up of the log (logger.go) and what is logged besides the Authorization
-- header; reading the command line, listening and shutdown on a signal (main.go), which are calls of
-- libraries. Request contexts, cancellation and failures of the client's connection do not appear.
pub mod Base
pub mod Store
pub mod Overlay
pub mod Remote
pub mod Range
pub mod Protocol
pub mod Signature
pub mod Server
pub mod Startup
pub mod Tests
