-- ===== src/Lib.antt =====
-- SageStore: the server's business modules, the dispatch of requests, the audit log, the SQL behind
-- the repositories, and the client's requests and responses.
--
-- A request goes from the network layer to `BusinessLogic::executeTask`, which finds the module that
-- it names. A module validates the fields of the request, reads tables through repositories, and
-- writes. An exception becomes a response with the key "error"; a change that has succeeded is
-- written to the audit log. Only receipts of purchase orders use a transaction.
--
-- Which file models which part (paths from _server/src, unless they say otherwise):
--   Entities        _common/AutoGenerated/include/common/Entities: one record for each entity
--   DataSpecs       DataSpecs.hpp and _common/include/common/DataTypes.hpp: requests and responses,
--                   and how a handler fills the columns of a response (DataSpecs/Columns)
--   Exec            ServerException.hpp: exceptions as values, and calls in sequence. What a call has
--                   written before it throws stays written. Exec/Ensures has a rule for each way to
--                   build a call; Exec/Results is the do notation of calls that only compute
--   Repositories    Database/IRepository.hpp, Database/RepositoryManager.cpp (runInTransaction)
--   ModuleUtils     BusinessLogic/ModuleUtils.hpp; ModuleUtils/Integers is about integer fields
--   Inventory       BusinessLogic/InventoryModule.cpp, its helpers in Inventory/Requests;
--                   Inventory/Fields and Inventory/Unique are about them
--   Purchase        BusinessLogic/PurchaseModule.cpp: Purchase/Status, Purchase/Requests and
--                   Purchase/Receipt (receiveOrder); Purchase/Planning, Purchase/Quantities,
--                   Purchase/Rules, Purchase/Booking and Purchase/Immutable are about them
--   Sales, Management, Logs, Users, System      the other modules of BusinessLogic; Users/Login,
--                   Users/Listing, Users/Frame and Management/Frame are about them
--   BusinessLogic   BusinessLogic/BusinessLogic.cpp; BusinessLogic/Audit is about the audit log
--   Tables          the tables of scripts/create_db.sql as a client of the repositories sees them
--   Sql             the other files of Database/: the statements of each repository (Sql/People,
--                   Sql/Products, Sql/Orders), read by Sql/Grammar against the schema in Sql/Schema;
--                   Sql/Laws says what is relied on of SQLite behind `IDatabaseManager`, Sql/Correct,
--                   Sql/Mapped and Sql/Manager take the laws in Tables/Laws back to that
--   Network         Network/HttpTransaction.cpp (Network/Transaction), and the serializer's interface
--                   and _common/src/Network/JsonSerializer.cpp (Network/Json, with what is relied on
--                   of nlohmann's JSON values in Network/Json/Laws)
--   Client          _client/src/Network: ApiManager.cpp (Client/Requests, Client/Handlers,
--                   Client/Responses) and NetworkService.cpp (Client/Wire); Client/Wire/Lists takes a
--                   request all the way to the server and back
--   Startup         ServerStartupConfig.cpp
--   Memory          a database in memory, on which the examples in Tests run; it models no code
--   Prelude         names, operators, decimal numerals and association lists
--
-- A C++ function has the same name here in snake case, and its module as the namespace. The state
-- of the database is a parameter `S`: SQLite is not part of the repository. `IsDatabase` in
-- Tables/Laws states what the modules rely on: a SELECT on an open database answers and changes
-- nothing, a write does what it says or throws and has done nothing, an INSERT gives an id that
-- no row has, and a rollback of an open transaction brings back the tables of its beginning. How
-- a column compares and stores texts (its type affinity) is a parameter, too. Memory/Correct
-- shows that all this can hold, and Memory/Sqlite the same of the laws in Sql/Laws.
--
-- Quantities are texts of digits; a sum of two is guarded by the largest `long long`, 2^63 - 1. The
-- loops run over the rows of a query and are recursions on lists, so no fuel is used. `std::stod` is
-- a parameter that says which texts it accepts. What is logged is left out, and the clock is an
-- argument.
--
-- Not modelled: the calls of SQLite in SqliteDatabaseManager, analytics (sums of doubles), the
-- inside of the JSON library and the sockets, the main function of the server, the user interface
-- of the client, and the tools.
pub mod Prelude
pub mod Exec
pub mod Entities
pub mod DataSpecs
pub mod Repositories
pub mod ModuleUtils
pub mod Tables
pub mod Sql
pub mod Memory
pub mod Inventory
pub mod Purchase
pub mod Sales
pub mod Management
pub mod Logs
pub mod Users
pub mod System
pub mod BusinessLogic
pub mod Network
pub mod Client
pub mod Startup
pub mod Tests
