-- ===== src/Tests.antt =====
-- The theorems at concrete data.
mod Deltas
mod Listings
mod Plans
mod Frames
mod Agents
mod Locals
mod Conns
mod Remotes
mod Files
mod Commands
mod Shells
mod Transfers
mod Deliveries
