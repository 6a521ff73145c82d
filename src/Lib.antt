-- ===== src/Lib.antt =====
-- The verification library of mcp-searxng-relay, an MCP server in Go that searches through SearXNG
-- and fetches pages for an AI client.
--
-- The program and its model. A request to the MCP endpoint passes a gate (rate limit and
-- authentication), and its tool call then fetches a page: the address is checked against what the
-- caller was shown, the connection against the address policy; a document that comes back loses its
-- hidden elements, its text is cleaned, cut into windows and put in a signed fence, and the fetch is
-- counted and filed in the caller's history.
--
-- * RateLimit models rate_limit.go with requireAuth and authGate of transport_http.go and
--   bearerToken of oauth.go. Bucket is tokenBucket; Limiter is rateLimiter with bucketFor; Gate is
--   the chain rateLimit, requireAuth, rateLimitVerified that authGate composes.
-- * History models history.go. Record is fetchRecord with mergeRecord; Table is fetchHistory with
--   appendRecord, evictLeastRecent and list; Key is historyKey; Callers is the cache of histories
--   with historyFor and recordFetch; Sources gives the rows of toolSessionSources.
-- * Ssrf models ssrf.go. Address is assertPublicIP with reservedCIDRs; Acl is fetchACL with the
--   parsers of its entries; Dial is safeDialContext, safeCheckRedirect and the choice of a proxy.
-- * Provenance models provenance.go and confirm.go. Seen is seenURLs; Data is urlKey, carriesData,
--   looksEncoded and trustedHost; Confirm is issue and redeem; Check is checkURLProvenance, which
--   uses them all.
-- * Content models invisible.go (Invisible) and paginateContent of fetch.go (Paginate).
-- * Fence models fence.go: Escape and Cdata are the escapes; Signing the signing input; Note the note
--   on removals; Assemble is canonicalAttributes, buildFence and wrapFenceEncoded.
-- * Hidden models hidden.go. Style is inlineStyleHides with stripCSSComments and isCSSZero; Dom is
--   isHiddenElement, removeHiddenNodes and stripHiddenElements.
-- * Metrics models counters of metrics.go. Tables is recordFetchByDomain and recordEngineFailure;
--   Histogram is Observe with the series of writeSeries; Labels is the counters under a closed set
--   of labels, with classifyFetchError of fetch_error_reason.go.
-- * Config models readers of config.go: flags, numbers and lists; Roster is parseEngineRoster and
--   mergeRosters; Tokens is parseAuthTokens, addAuthToken and parseSharedSecretToken.
-- * UserToken models searxng_user_token.go. Settings is newUserTokenExchanger; Answer is request from
--   the endpoint's answer on, with validHeaderToken and logSafe; Exchange is Exchange with
--   userTokenForSearch.
-- * Sessions models, of transport_http.go, requireSharedSecret with requireHealthAuth and
--   requireMetricsAuth, limitSessions and sanitizeClientSessionID (Endpoints), and of server.go
--   handleInitialized and reapStaleSessions (Janitor).
-- * Base holds lists, texts, dictionaries and integers over the native numbers, and GoLib what the
--   program uses of Go's packages strings, strconv, net and encoding/binary, and of float64.
--
-- State is passed explicitly: an operation takes the state and gives its result with the new state.
-- A method under a mutex is one step; of redeem only the part under its mutex is, with a reading of
-- the clock that is taken before. bucketFor is two steps, Get and PeekOrAdd, since another request
-- may come in between; buckets stand on a heap, and the cache holds their places. Errors are
-- values: `none`, or a constructor of the component's own type.
--
-- Bounds and numbers. Texts are lists of bytes, in Content.Invisible of the code points of valid
-- UTF-8. Most loops are recursions on their list. On fuel run strconv.Itoa, with one more than the
-- number, which is more than it has digits; stripCSSComments, with the length of the style, which
-- every round shortens; and removeHiddenNodes, with the number of nodes, each of which is on the
-- stack once at most. Sizes and times are natural numbers, times in nanoseconds, and a subtraction
-- stands only where the source's cannot go below 0, or, for an age, decides the same when it does.
-- Token counts and rates of the limiter are float64 values with the rounding of IEEE 754, each held
-- exactly as a number of units of 2^-1074 (GoLib.Float64); the exponent of a rounding is found by
-- halving steps that are enough for 4,148 bits, where the largest product has 3,300. A duration is
-- an int64 that wraps around where the source multiplies it. A rate of 0 stands for every rate that
-- is not positive, and likewise the capacity of a history. Case folding and white space are those
-- of ASCII.
--
-- Parameters. The LRU cache of hashicorp is the interface GoLib.Lru.Lru, of which Unbounded is an
-- instance; SHA-256, the verification of a JWT, the SDK's bearer middleware, the MAC and the base64 codec of confirmations,
-- net.ParseCIDR, url.Parse, url.QueryUnescape, net.ParseIP, the answers of the token endpoint, the
-- DNS resolver, html.Parse and html.Render are arguments, as are the Ed25519 signature, the nonces
-- and the wording of the awareness preambles, and so is the test whether strconv.ParseFloat reads a
-- text as 0. The documented effect of RemoveChild of golang.org/x/net/html stands in Hidden.Dom as
-- the removal from a list of children.
--
-- Not modelled: logging and the wording of messages; the HTTP request to the token endpoint; the
-- wiring in main.go and server.go, TLS, discovery and the HTTP client, which are input and output;
-- the extraction of text from HTML, PDF and Office files, which third-party libraries do; the text
-- of GET /metrics; of config.go the number formats of float64 and time.Duration and the reading of
-- each variable; and of fence.go the generation of keys and the startup log.
pub mod Base
pub mod GoLib
pub mod RateLimit
pub mod History
pub mod Ssrf
pub mod Provenance
pub mod Content
pub mod Fence
pub mod Hidden
pub mod Metrics
pub mod Config
pub mod UserToken
pub mod Sessions
