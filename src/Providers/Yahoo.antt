-- ===== src/Providers/Yahoo.antt =====
-- app/providers/yahoo: the provider of auction data that reads Yahoo's pages.
pub mod Client
pub mod Extractor
pub mod Provider
