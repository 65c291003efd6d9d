-- ===== src/Http.antt =====
-- include/crab/http: the parsers of requests, responses, bodies, query strings, cookies and URIs, and
-- what is written for them.
pub mod ServerConnection
pub mod BufferedSocket
pub mod Header
pub mod Body
pub mod Chunked
pub mod RequestState
pub mod Request
pub mod ResponseState
pub mod Response
pub mod Url
pub mod Query
pub mod Cookie
pub mod Uri
pub mod Print
