-- ===== src/Tests.antt =====
-- Concrete rows, environments and runs of the code on them.
mod Data
mod Queue
mod Log
mod Api
mod Money
mod Traffic
mod Door
mod Extension
mod Spending
mod Payments
mod Hooks
mod Sealing
mod Toy
mod Caches
mod Vault
mod Browser
mod Burn
