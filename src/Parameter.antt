-- ===== src/Parameter.antt =====
-- internal/parameter: the stored parameters of the devices, and the traffic samples.
pub mod Traffic
pub mod Like
pub mod Storage
