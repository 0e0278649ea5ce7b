-- ===== src/Eval.antt =====
-- The evaluation of the loop on known bugs, src/autobugfix/eval.
pub mod Scorers
pub mod Verdicts
pub mod Tests
