-- ===== src/Rules.antt =====
-- packages/rules: rules that derive parts of a document's state from others, the graph of their
-- dependencies, and the evaluation of those that a change affects.
pub mod Types
pub mod Dependencies
pub mod Evaluator
pub mod Evaluation
pub mod Graph
pub mod Layers
pub mod Compiler
mod Tests
