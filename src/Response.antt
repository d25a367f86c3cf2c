-- ===== src/Response.antt =====
-- src/response/: the normalisation of a server-sent event stream.
pub mod Json
pub mod Consumer
