-- ===== src/Projects.antt =====
-- internal/projects: the Compose projects that Back-Orbit knows, and what of them holds data.
pub mod Sources
pub mod Registry
pub mod Service
