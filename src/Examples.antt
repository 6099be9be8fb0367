-- ===== src/Examples.antt =====
-- Runs on concrete inputs.
mod Hosts
mod Stores
mod Conversions
mod Tasks
mod Slices
mod Proxies
mod Ciphers
mod Configs
mod Args
mod Guards
mod Limits
mod Queues
mod Dots
mod Scans
