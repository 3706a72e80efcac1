-- ===== src/Authority.antt =====
-- Backend/src/domain/companies, agents, constitutions and capabilities: who may do what. Ids are
-- numbers that are only compared, a new row takes the next one, and times are milliseconds. The
-- free texts of a row (purpose, createdBy) and the hash of a constitution are left out.
pub mod Store
pub mod Agents
pub mod Constitutions
pub mod Activation
pub mod Limits
pub mod Checks
pub mod Capabilities
pub mod Containment
pub mod Creation
pub mod Marks
pub mod Creating
pub mod Delegation
pub mod Ancestry
pub mod Validity
pub mod Tests
