-- ===== src/Transport.antt =====
-- runtime/transport: what the transports decide without a socket.
pub mod MediaType
