-- ===== src/Qos.antt =====
-- internal/wrphandlers/qos: the handler that queues messages for delivery by priority.
pub mod Priority
pub mod Item
pub mod Queue
pub mod Options
pub mod Service
