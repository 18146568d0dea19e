-- ===== src/Cwmp.antt =====
-- internal/cwmp: the CWMP endpoint of the server.
pub mod WanProvision
pub mod SessionManager
pub mod Soap
pub mod Summon
pub mod Adoption
pub mod WanParameters
pub mod Dispatch
pub mod ExecuteTask
pub mod PortMappings
pub mod Traceroute
pub mod VlanChain
pub mod WifiUpdate
pub mod Restore
pub mod Reset
pub mod Defaults
pub mod LegacyFlow
pub mod WanTask
pub mod InformParams
pub mod Responses
