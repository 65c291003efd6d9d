-- ===== src/Network.antt =====
-- The run loop's parts of include/crab/network.hpp and network.hxx that need no operating system.
pub mod Timer
