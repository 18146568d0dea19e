-- ===== src/Datamodel.antt =====
-- internal/datamodel: the two data models' parameter paths, the instance indices, bands and addresses.
pub mod Model
pub mod Validator
pub mod Discovery
pub mod Tr181
pub mod Tr098
pub mod Apply
pub mod Roots
pub mod Addresses
pub mod WifiBands
pub mod Tests
