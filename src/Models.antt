-- ===== src/Models.antt =====
-- core/core/models: the data that the parts exchange.
pub mod Time
pub mod Device
