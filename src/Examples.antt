-- ===== src/Examples.antt =====
-- The theorems at concrete inputs, and runs of the models on them.
mod Ranks
mod Charts
mod Sessions
mod Pushes
mod Choices
mod Relays
mod Syncing
mod Files
