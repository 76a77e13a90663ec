-- ===== src/Tests.antt =====
-- The tests: runs of the models on the samples, and the theorems applied to them.
mod Auth
mod Inventory
mod Collecting
mod Keeping
mod Parsing
mod Serving
