-- ===== src/Visible.antt =====
-- The invariant that ties the outputs to the scene: no workspace is on two outputs, and exactly the
-- workspaces on an output are enabled.
pub mod Outputs
pub mod Switch
pub mod Switched
pub mod NewOutput
pub mod Destroy
pub mod Kept
pub mod Windows
pub mod Handlers
pub mod Surfaces
pub mod Tiled
pub mod Keys
pub mod Commands
pub mod Input
pub mod Reload
pub mod Reach
