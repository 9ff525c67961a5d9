-- ===== src/Router.antt =====
-- The radix-tree router: router.go, and the route parameters of ctx_lifecycle.go.
pub mod Params
pub mod Method
pub mod Build
pub mod Segments
pub mod Tree
pub mod Find
pub mod Table
pub mod Compile
pub mod CleanPath
mod Tests
