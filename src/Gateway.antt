-- ===== src/Gateway.antt =====
-- persys-gateway: the front door of the control plane.
pub mod Pool
pub mod Discovery
