-- ===== src/Commands.antt =====
-- ColumnStoreCommands, of src/util_commands.cpp and src/util_commands.h: the commands that go to the
-- DBRM controller, the write engines and the process monitor.
pub mod Reader
pub mod Brm
pub mod Tables
pub mod Version
pub mod WriteEngine
pub mod Gives
pub mod Steps
pub mod Finishes
pub mod Protocol
pub mod Servers
pub mod Vectors
pub mod Understood
pub mod Carried
pub mod Controller
pub mod Catalog
pub mod Locks
pub mod Marks
pub mod Answers
pub mod Engines
pub mod Granted
pub mod Denied
pub mod Loops
pub mod Waiting
pub mod Exchange
pub mod Connections
pub mod Together
pub mod Completion
pub mod Requests
pub mod Refinement
pub mod Alone
pub mod Versions
