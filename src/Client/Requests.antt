-- ===== src/Client/Requests.antt =====
-- ApiManager.cpp: the requests that the client makes, by the server module that answers them.
pub mod Accounts
pub mod Inventory
pub mod Management
pub mod Purchase
pub mod Sales
