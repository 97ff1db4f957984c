-- ===== src/Tests.antt =====
-- Runs of the models on inputs of the repository's own tests, and instances of the theorems.
mod Subgraph
mod Encoding
mod Oracle
mod Monitor
mod Json
mod Store
mod Delivery
mod Mapping
mod Config
