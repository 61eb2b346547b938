-- ===== src/Lib.antt =====
-- A model of the C++ library of MariaDB ColumnStore API (mcsapi), which writes rows into a ColumnStore
-- cluster in bulk. A program asks a driver for a bulk insert on a table; the bulk insert converts each
-- value to the cell of its column, collects rows, sends them to the PMs in turn, and commits or rolls
-- back. The commands go as messages over TCP connections that libuv drives.
--
-- Convert, with its children, is src/util_dataconvert.cpp: one function for each entry point
-- (convert_uint, convert_int, convert_double, convert_text, convert_date, convert_time,
-- convert_decimal, get_null), which takes the column, the cell and the value and gives the status and
-- the cell. A `switch` on the type of the column is a function by clauses (convert_uint_as and so on)
-- with a helper for each case that has a body. Convert.Overloads puts the overloads together, and
-- Convert.Range states the ranges that the integer types are held against.
-- DateTime and Time are the classes of these names in src/mcsapi_types.cpp; Decimal is the decimal
-- class there.
-- Messaging is src/util_messaging.cpp. Integers go by their bytes, lowest first, as on the machines
-- that the library is built for.
-- Network is src/util_network.cpp: a function for each callback, with the status that libuv passes as
-- an argument. `deliver` is one round of libuv's reading, `deliver_all` a series of them.
-- Bulk is src/mcsapi_bulk.cpp with the table data of src/util_structures.h: each operation gives the
-- state behind it and how it ends. `Server` says what each command answers, by the calls made before,
-- and the state keeps the log of these calls. Bulk.Closing holds commit and rollback, Bulk.Connecting
-- the constructor, connect and the destructor, with the configuration and the catalogue as `Cluster`;
-- Bulk.Calls has the calls and Bulk.Journal the rows that they carry.
-- Commands, with its children, is src/util_commands.cpp. A `Command` is the request that a function
-- sends and the `Reader` that takes its reply apart: Reader has the reads and the exceptions, Brm,
-- WriteEngine, Tables and Version the functions by the server that they speak to. Loops has
-- runSoloLoop and runLoop over a list of what each `uv_run` does to the connections, and Exchange puts
-- a command together: wait, send, wait, read. Exchange waits with runSoloLoop, as the functions of the DBRM
-- controller and the process monitor do; Connections has the map of connections, getWeConnection, and
-- the exchange with runLoop, as the functions of the write engine go, and Commands.Together relates
-- the two. Requests and Answers give the
-- command of each call of Bulk and the reply that a server writes for it, Protocol and Servers the
-- way in which a server reads a request, by the codes of src/util_commands.h, so that Refinement
-- relates the calls of the bulk insert to the bytes of a connection.
-- Driver, with its children, is src/mcsapi_driver.cpp: Driver.Starting is the path of the configuration,
-- the checks of its root and the cache of the catalogue, Driver.Config the search of the configuration
-- tree that libxml2 has built, Driver.Clearing the clearing of a table lock as a series of calls, with the calls
-- that it is meant to make in Driver.Trace, and
-- Driver.Lookup the lookups in the catalogue of src/mcsapi_types.cpp.
-- Types has the enumerations, the catalogue column and the cell. Std has what comes from outside the
-- repository: Std.Scan writes out the parts of strtoll, strtoul, strtoull and sscanf that the library
-- uses, as the C standard documents them; floating-point operations (Floats), Boost decimals (Decimals) and
-- snappy are parameters, and only snappy has hypotheses, that it gives back what it compressed and that
-- its output is not empty. Prelude has the helpers; Tests has the runs.
--
-- Numbers are natural numbers with the wrap-around of the C++ types written out, and strings are lists
-- of bytes. Loops are structural recursion, so no fuel is used; the loops that wait for libuv recurse on
-- the list of its turns, and give nothing where the list ends first. A read of libuv that is larger
-- than the buffer it was offered is dropped by `store`. A comparison of names without regard to case
-- (boost::iequals) is a parameter.
--
-- Not modelled: the set-up and the closing of the libuv loop in src/util_commands.cpp, which hold
-- handles only; name resolution and the parsing of the XML file,
-- which are calls of libuv and libxml2; the texts of exceptions beyond what they
-- name; the clock of the summary, getColumnCount and setBatchSize of src/mcsapi_bulk.cpp, which nothing
-- reads; debugging output; and the bindings for other languages.
pub mod Bulk
pub mod Commands
pub mod Convert
pub mod DateTime
pub mod Decimal
pub mod Driver
pub mod Messaging
pub mod Network
pub mod Prelude
pub mod Std
pub mod Tests
pub mod Time
pub mod Types
