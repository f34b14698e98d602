-- ===== src/Blueprints.antt =====
-- internal/protectionblueprints: the catalog of templates (catalog.go) and the matching of a project
-- against it (match.go).
pub mod Assignment
pub mod Catalog
pub mod Matching
mod Tests
