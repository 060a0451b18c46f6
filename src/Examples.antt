-- ===== src/Examples.antt =====
-- Concrete data for every theorem: toy primitives that satisfy the laws, and runs of the
-- definitions on them.
pub mod Toy
pub mod Rooms
pub mod Sealing
pub mod Hub
pub mod Client
pub mod App
pub mod Requests
pub mod Ui
pub mod Files
pub mod Dispatch
