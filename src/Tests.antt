-- ===== src/Tests.antt =====
-- Runs at concrete inputs, among them the applications of the theorems.
mod VecTests
mod MapIdxTests
mod WorkDivTests
mod BarrierTests
mod NdLoopTests
mod PhiloxTests
mod AtomicTests
mod ExecPoolTests
mod SharedMemTests
mod CallbackTests
mod EventTests
mod MemTests
mod KernelTests
mod PredicateTests
