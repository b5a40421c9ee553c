-- ===== src/Tests.antt =====
-- Runs on concrete inputs, and each theorem with hypotheses applied to an input that has them.
mod Relocate
mod Drive
mod InlineHook
mod Files
mod Core
mod Image
mod Glue
mod Hook
mod Register
mod Steps
mod Machine
mod Back
mod Unwind
mod Loads
