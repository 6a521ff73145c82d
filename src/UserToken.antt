-- ===== src/UserToken.antt =====
-- searxng_user_token.go: the exchange of a caller's verified token for one of the search backend.
-- Answer reads the token endpoint's answer, Exchange has the cache and the call for a search. The
-- endpoint, the decoding of its JSON and SHA-256 are parameters, an HTTP exchange a function from
-- the form that is posted; its authentication and the settings' validation are not modelled.
pub mod Answer
pub mod Exchange
pub mod Settings
mod Tests
