-- ===== src/Tests.antt =====
-- The properties at concrete inputs, on the database in memory, and runs of the handlers.
mod Seed
mod Fields
mod Orders
mod Requests
mod Stock
mod Receipts
mod Frames
mod Sql
mod Wire
mod Startup
