-- ===== src/Repo.antt =====
-- core/core/repo: the repositories.
pub mod DeviceRepository
pub mod RepositoryRegistry
