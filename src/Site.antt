-- ===== src/Site.antt =====
-- internal/site: the routes of a site, their middleware and the response cache.
pub mod Http
pub mod Route
pub mod Cache
