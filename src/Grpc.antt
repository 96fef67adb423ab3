-- ===== src/Grpc.antt =====
-- internal/controller/grpc: the calls that agents make.
pub mod Server
pub mod Hdr
pub mod Result
pub mod Poll
pub mod Sync
pub mod Register
pub mod Heartbeat
pub mod Valid
