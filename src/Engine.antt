-- ===== src/Engine.antt =====
-- The engines behind `IStorageEngine` of src/storage_engine.hpp.
pub mod Rocks
pub mod Search
