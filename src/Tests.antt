-- ===== src/Tests.antt =====
-- Runs of the model at concrete inputs, and the theorems at inputs that meet their hypotheses.
pub mod JsonValue
mod Caches
mod Spans
mod Registry
mod Delivery
mod Ledger
mod Routing
mod Delivers
mod Journal
mod Consumer
mod Routed
