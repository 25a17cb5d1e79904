-- ===== src/Study/Graph.antt =====
-- src/study/graph.py: the state of a study request, the nodes, and the run from node to node.
pub mod State
pub mod Retrieval
pub mod Reflection
pub mod Answering
pub mod Run
pub mod Naming
pub mod Stages
pub mod Ending
pub mod Citations
pub mod Attempts
pub mod Tests
