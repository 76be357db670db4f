-- ===== src/Client/Handlers.antt =====
-- ApiManager.cpp: what the client makes of the dataset of a response.
pub mod Accounts
pub mod Inventory
pub mod Management
pub mod Orders
