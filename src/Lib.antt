-- ===== src/Lib.antt =====
-- Verification of amaro, a web framework in Go: the router and what serves a request through it, and
-- the middlewares that decide whether a request is let through or what headers its response has.
--
-- The parts and how they interact. An App (amaro.go) keeps a router, a list of global middlewares and a
-- pool of contexts. ServeHTTP takes a context from the pool, resets it, and runs the middlewares,
-- compiled once around `dispatch`; the first of them is Recovery (recovery.go). `dispatch` asks the
-- router (routers/trie.go) for the route of the request's method and path, which also writes the path
-- parameters to the context, and calls the route's handler, or the App's error handler. Groups
-- (group.go) register routes under a prefix. Middlewares (middlewares/) are functions from handlers to
-- handlers.
--
-- Files and the code that they model:
--   Context    context.go: Context, its accessors and responses; Handler and Middleware of amaro.go.
--              A handler is a function from a context and the memory that closures share to an outcome:
--              a returned error, or a panic, each with the context and memory as they are then
--   Context/Uploads
--              FormFile and SaveFile of context.go
--   Errors     errors.go: HTTPError, as one constructor of the type of Go's errors
--   Routing    router.go: Route, RouterConfig, DefaultParamParser, DefaultWildcardParser, and the
--              interface Router as a record of Add and Find; Compile and Chain of amaro.go
--   Trie       routers/trie.go: node, TrieRouter, NewTrieRouter, Use, Add; Trie/Search has Find,
--              Trie/Listing Routes and Trie/Static StaticFS
--   Recovery   recovery.go: Recovery, WithHTMLDebug, renderDebugPage
--   App        amaro.go: New, Use, Add, GET to HEAD, Any, Mount, Find, setup, dispatch,
--              ServeHTTP; App/Server has Run, RunTLS, startServer, Static, StaticFS, Test
--   Group      group.go: NewGroup, Group, Use, Add, GET to HEAD, Any, Mount, Find
--   Cache      addons/cache/cache.go: MemoryCache, and the interface Cache as a record of operations and
--              laws (Cache/Interface); Cache/Page has addons/cache/middleware.go: CachePage
--   Sessions   addons/sessions/sessions.go: the Manager, over that interface; Sessions/Requests has
--              addons/sessions/middleware.go: Start and Get; Sessions/Maps Get, Set and Save of a Session
--   Binding    context.go: setField; Binding/Fields has checkPtr and bindData, Binding/Validation
--              validateStruct with isZero, checkMin and checkMax, Binding/Requests BindQuery, BindForm
--              and BindJSON
--   Static     static.go: StaticHandler, serveFile, serveContent; Static/Paths what they use of package
--              path
--   Middlewares/BasicAuth, KeyAuth, SessionAuth, Jwt, Roles, Cors, Secure, RequestId, Limiter, Logger
--              middlewares/basic_auth.go, key_auth.go, session_auth.go, jwt.go (Middlewares/Jwt/Tokens
--              has parseToken, the middleware and CreateToken), rbac.go, cors.go, secure.go,
--              request_id.go, limiter.go, logger.go
--   Streaming  addons/streaming/streaming.go: Stream, StreamText, StreamSSE, Send; Streaming/Events has a
--              client's reading of an event stream
--   Htmx       addons/htmx/htmx.go
--   Websocket  addons/websocket/websocket.go: New
--   Oauth2     addons/oauth2/oauth2.go: LoginHandler, CallbackHandler
--   Openapi    addons/openapi/models.go: the parts of a document; Openapi/Routes has NewGenerator and
--              AddRoute, Openapi/Reflection GenerateSchema, Openapi/Typed Bind, WrapHandler and
--              WrapStream, Openapi/Comments ParseDocs and ApplyComments
--   Middlewares/Compress
--              middlewares/compress.go, over handlers given by their calls of the response writer
--   Middlewares/Timeout
--              middlewares/timeout.go with the pool of contexts of ServeHTTP, as a relation of steps of
--              goroutines that run at the same time; the App's error handler is one step
--   Http       what the code uses of net/http: requests, header maps and a response writer
--   Strings    what it uses of the package strings
--   Strconv    what it uses of the package strconv
--   Prelude    lists, maps with string keys, Boolean tests, decimal numerals, and integers of a size
--   Tests      runs on small inputs, and the theorems at concrete arguments
-- The modules below a part's file hold the theorems about it.
--
-- Specifications. Trie/Registered has the abstract view of a router: a table from methods and patterns
-- (lists of static, param and wildcard segments) to routes. Trie/Matching says when a pattern matches a
-- path and with which parameters, and Trie/Choice which of several patterns the walk takes. Gate has
-- what it means that a middleware lets a request through to its handler or refuses it. Cache/Visible
-- has what a reader of the cache sees at a time, Binding/Validation/Meaning what the rules of a field
-- ask of it, Static/Paths/Names which names of files go up nowhere, and Streaming/Events how the
-- standard of server-sent events reads a stream. Openapi/Reflection/Described has the schema of a type
-- without a registry, Openapi/Reflection/Closed which schemas refer only to registered ones,
-- Openapi/Complete/Operations the operation that documents a typed handler, and
-- Openapi/Routes/Documented a document as a table from methods and paths to operations.
--
-- Fuel. Find's loop shortens the path that is left in every round but the last, so it gets one round
-- more than the path has bytes, and Trie/Search/Total shows that this is enough. GenerateSchema enters a
-- named struct only while its name is not registered, so its fuel is the number of such names
-- (Openapi/Reflection/Enough). All other functions are structural.
--
-- Parameters, for code outside the repository: html/template (Recovery), the text of an error
-- (KeyAuth), random bytes (RequestId) and session ids, the conversion of session data, floating-point
-- numbers, the clock, the package golang-jwt (Jwt), the cookie that http.SetCookie writes, the file
-- system and http.ServeContent (Static), what a logger prints on (Logger), the gob encoding
-- (Cache/Page), the decoder of JSON and ParseForm (Binding), the validators and extractors that a user
-- gives to the authentication middlewares, AuthCodeURL and Exchange (Oauth2), gzip
-- (Middlewares/Compress), the disk (Context/Uploads), the listener and the signals
-- (App/Server), what go/parser and go/doc make of a directory (Openapi/Comments), and the App's router,
-- which is any record of Add and Find.
--
-- Not modelled: concurrent requests outside Middlewares/Timeout (each is served alone), sockets,
-- panics under Compress and Timeout, and types that contain themselves without
-- a named struct (Openapi).
-- Statuses, times and ages are natural numbers, but for the expirations in the cache, which are int64.
-- strings.ToUpper is exact only as far as its result has ASCII letters (Strings).
pub mod Oauth2
pub mod Websocket
pub mod Openapi
pub mod Prelude
pub mod Strings
pub mod Http
pub mod Errors
pub mod Context
pub mod Routing
pub mod Trie
pub mod Recovery
pub mod App
pub mod Group
pub mod Middlewares
pub mod Cache
pub mod Tests
pub mod Sessions
pub mod Strconv
pub mod Binding
pub mod Static
pub mod Streaming
pub mod Htmx
