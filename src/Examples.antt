-- ===== src/Examples.antt =====
-- Concrete runs: a world that answers every call, objects in it, tests by computation, and the
-- theorems of the development applied to them.
pub mod World
mod Tests
mod Values
mod Controller
pub mod Memory
mod DeepCopy
mod Runtime
mod System
mod Run
mod Start
