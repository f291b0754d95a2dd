-- ===== src/Judgment.antt =====
-- miriam_agent/judgment: the semantic answers of one turn, the deterministic rules that turn them and
-- the ledger into a decision, and the decision itself. What the judge answers is a parameter.
pub mod Answers
pub mod Rules
pub mod Decide
