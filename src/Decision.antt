-- ===== src/Decision.antt =====
-- Backend/src/decision/engine.ts: the decision ladder. The reasons of a decision, which are prose,
-- are left out; its determinant, the name of the rule that decided, is kept.
pub mod Engine
pub mod Ladder
pub mod Safety
mod Tests
