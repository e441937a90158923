-- ===== src/Tests.antt =====
-- Test data, runs at fixed inputs, and each theorem at an input that exercises the code.
mod Stacks
mod Nodes
mod Blocks
mod Databases
mod Totals
mod Globals
mod Trees
mod Counters
mod Validation
mod Watching
mod Rules
mod Trimming
