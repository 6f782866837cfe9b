-- ===== src/Proxy.antt =====
-- The feed proxy: async-proxy/src/buf_processor.cpp on redis, and the dispatch of
-- async-proxy/src/proxy.cpp.
pub mod Redis
pub mod Packet
pub mod Attention
pub mod Query
pub mod Dispatch
pub mod Replies
pub mod Ends
pub mod Answers
pub mod Queries
pub mod Pipeline
pub mod Meaning
pub mod Oddities
pub mod Decimal
pub mod Listing
mod Tests
