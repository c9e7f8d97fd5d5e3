-- ===== src/Lib.antt =====
-- A model of parts of chromulate, an HTTP client that behaves like a browser, with the theorems
-- that make these parts correct.
--
-- Parts, and where they are modelled:
--   Prelude       numbers, lists, association lists, times, text and header maps, shared by all.
--   Concurrency   crates/chromulate-concurrency/src/adaptive.rs, the controller that decides how
--                 many requests an origin may have in flight. `Concurrency.Config` is
--                 `ConcurrencyConfig` with `sanitised`, `Signal` and its constructors;
--                 `Concurrency.Origin` is `Origin`, `try_take_slot` and `pause_remaining`;
--                 `Concurrency.Feedback` is `release` with `apply`, `healthy`, `relax_ceiling` and
--                 `refuse`.
--   Http.Pool     crates/chromulate-http/src/pool.rs, the pool of connections: `checkout`,
--                 `release`, `release_multiplexed`, `clear`, `sweep_if_due`, `evict_expired`,
--                 `evict_oldest`.
--   Http.Redirect crates/chromulate-http/src/redirect.rs, `decide` on a 3xx response and
--                 `strip_credentials`, and `rebuild` of engine.rs beside it.
--   Http.Retry    crates/chromulate-http/src/middleware/retry.rs, the policy, `delay` and the loop
--                 of `exchange`.
--   Http.Hsts     crates/chromulate-http/src/hsts.rs, the hosts that asked for HTTPS: `record` is
--                 `record_header` here, `applies_to`, `upgrade`, `evict` and `parse`.
--   Core          crates/chromulate-core/src, `Error` (error.rs) and the origins of URLs (uri.rs).
--   Cache         crates/chromulate-cache/src: `Storage` is the bounded store (storage.rs), `Date`
--                 the dates of header fields (date.rs), `Directive` is `Cache-Control`
--                 (directive.rs), `Entry` what is stored (entry.rs), `Policy` what may be stored
--                 and when it is fresh (policy.rs).
--   Cookie        crates/chromulate-cookie/src: `Domain` (domain.rs), `Path` (path.rs), `Expiry`
--                 (date.rs) and `Parsing` (cookie.rs, same_site.rs) read a `Set-Cookie`; `Bucket`
--                 and `Jar` are jar.rs: `Jar` is `apply_set_cookie` and `with_site`, `Jar.Eviction`
--                 `enforce_total`, `Jar.Storing` is `store`, `Jar.Serving` `cookies_for`, and
--                 `Jar.Snapshot` `export` and `import`.
--   Proxy         crates/chromulate-proxy/src/socks5.rs, the negotiation of a tunnel: `Stream` is
--                 the socket and what is read of a `ProxyUrl` (url.rs), `Socks5` is `handshake`
--                 with `authenticate`, `request_connect` with `encode_address`, and `connect`.
--
-- How the parts interact: the engine asks the controller for a slot, takes a connection from the
-- pool, and reports the response's `Signal` and returns the connection after it; the cache stands
-- before both. A retry wraps the engine's loop over redirects, whose URLs the store of HTTPS hosts
-- has upgraded. `Policy` reads what `Directive`, `Entry` and `Date` parse. The jar adds the
-- cookies of a request and stores those of its response. A connection may go through a proxy.
--
-- How the code is read:
--   * A lock guards each of the structures, so an operation is a function on its state, and an
--     interleaving of tasks is a sequence of operations (`Reach`, `run`).
--   * A hash map is an association list; its order is arbitrary, so nothing rests on it.
--   * Numbers are natural numbers; a counter wraps where the source lets it wrap, and a saturating
--     operation has its bound. Sizes in bytes are sums that a machine word holds.
--   * Times are nanoseconds from the first one that the platform's clock can represent. A call that
--     reads the clock has its readings as arguments. What the clock can represent is a parameter
--     (`Platform`), of which it is assumed that the years 1601 to 9999 are in it. Arithmetic on
--     times that is not checked panics outside it: `Jar::import` then leaves the jar as it was at
--     that record, and the next call recovers the lock.
--   * Whether a connection is closed is asked of the connection, so it is a function that is a
--     parameter of the operations. A removal from an empty vector panics: its result is `none`.
--   * Floating point numbers are a parameter (`Floats`), and nothing is assumed of them.
--   * Header maps belong to the `http` crate: `HeaderMaps` is what the code asks of them, with
--     three laws of their documentation.
--   * Text is a list of bytes, so `trim` and the case of letters are those of ASCII.
--   * Where the source sorts a vector in place, the model sorts by insertion; where it selects the
--     least elements only, equal ones stay in their order here. A binary heap is a list in order.
--   * The list of public suffixes (the `psl` crate) is a parameter (`Suffixes`); nothing is assumed
--     of it. Whether text can be a header value is asked of the `http` crate, as a parameter.
--   * Loops run over lists, but for three. The retries have fuel; one more than `max_retries` is
--     enough. The eviction of hosts has the number of hosts as fuel, and the walk over parent
--     domains the length of the name; each turn of them removes a host or shortens the name.
--   * URLs belong to the `url` crate: `Urls` and `Schemes` are what the code asks of them. Whether text is an IP
--     address is asked of the standard library, as a parameter.
--   * A socket is the bytes that the other side sends until it closes and those sent to it; whether
--     a write fails, and what a lookup answers, are parameters (`Host`).
--
-- Not modelled: sockets, TLS, HTTP framing and the async tasks that drive them, which the source
-- leaves to other crates; statistics and their display; the store of origins that holds the
-- controller's records, with its eviction; the preload list of HTTPS hosts; the resolver's cache,
-- other proxies, profiles, the header engine and the fingerprints.
pub mod Prelude
pub mod Core
pub mod Concurrency
pub mod Http
pub mod Cache
pub mod Cookie
pub mod Proxy
