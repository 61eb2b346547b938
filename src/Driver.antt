-- ===== src/Driver.antt =====
-- ColumnStoreDriver and ColumnStoreDriverImpl, of src/mcsapi_driver.cpp: the configuration, the
-- lookups in the system catalogue of src/mcsapi_types.cpp, and the table locks.
pub mod Config
pub mod Starting
pub mod Matching
pub mod Lookup
pub mod Clearing
pub mod Trace
pub mod Cleared
pub mod Clears
