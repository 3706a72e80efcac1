-- ===== src/Policy.antt =====
-- Backend/src/policy: the rules of a policy and their evaluation (rules/types.ts,
-- rules/evaluators.ts, engine/engine.ts). The configuration of a rule has the fields that the
-- evaluators read, at the types that they cast them to; hours, counts and priorities are whole
-- numbers. The hash of an evaluation and its random ids are left out.
pub mod Rules
pub mod Evaluators
pub mod Limits
pub mod Engine
pub mod Status
pub mod Limited
mod Tests
