-- ===== src/Layout.antt =====
-- modules/taxonomy/layout.py of apps/api/src: the layout of the cards of a scope, by a force simulation,
-- and its slices.
pub mod Model
pub mod Nodes
pub mod Forces
pub mod Build
pub mod Edges
pub mod Shape
pub mod Slices
pub mod Requests
mod Tests
