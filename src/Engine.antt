-- ===== src/Engine.antt =====
-- packages/canvas-engine/src: the shapes of the engine, and the state that holds them.
pub mod Shapes
pub mod State
pub mod Geometry
pub mod Handles
pub mod Resize
pub mod Selection
pub mod Bindings
pub mod Store
pub mod Translate
pub mod Arrange
pub mod Targets
pub mod Bound
pub mod Ids
pub mod Parents
pub mod History
mod Tests
