-- ===== src/Store.antt =====
-- internal/store: the SQLite store as tables, a list of rows each.
pub mod Tables
pub mod Put
pub mod Queries
pub mod Paging
pub mod Listing
pub mod Order
pub mod Sorted
pub mod ListCuts
pub mod ListPages
pub mod Lookup
pub mod Cursors
pub mod Pages
pub mod Requests
mod Examples
mod ListExamples
