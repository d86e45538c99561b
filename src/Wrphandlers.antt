-- ===== src/Wrphandlers.antt =====
-- internal/wrphandlers: the handlers that a message passes on its way in.
pub mod Auth
pub mod Missing
pub mod Logging
pub mod Ingress
pub mod Crud
pub mod Mocktr181
