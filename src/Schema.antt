-- ===== src/Schema.antt =====
-- internal/schema: parameter schemas, vendor drivers and provisioning flows.
pub mod Vendor
pub mod Registry
pub mod Resolver
pub mod Flow
pub mod Driver
pub mod Mapper
pub mod Provision
