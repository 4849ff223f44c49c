-- ===== src/Grpc.antt =====
-- internal/grpc/interceptors: the status of an error, and whom a call acts for.
pub mod Status
pub mod Auth
mod Tests
