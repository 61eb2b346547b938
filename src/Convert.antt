-- ===== src/Convert.antt =====
-- src/util_dataconvert.cpp
pub mod Uint
pub mod Int
pub mod Double
pub mod Decimal
pub mod Text
pub mod Temporal
pub mod Null
pub mod Overloads
pub mod Layout
pub mod Markers
pub mod Range
pub mod Saturation
pub mod Exact
pub mod Invalid
