-- ===== src/Tests.antt =====
-- Concrete kernels, runs of the calls on them, and the theorems at them.
pub mod Machine
mod Transfer
mod Descriptors
mod Waiting
mod Executing
mod Forking
mod Typing
mod Machinery
mod Systems
mod Closing
mod Printing
