-- ===== src/Tests.antt =====
-- The theorems at concrete inputs: on operations, on the client and its transactions, and on the
-- services with a small world in place of gRPC.
mod Ops
mod Builders
mod Services
mod Streams
mod Dialing
mod Admin
mod Compression
mod Plugins
mod Traffic
mod Tokens
mod Goroutines
mod Commits
mod Hooking
