-- ===== src/Secrets.antt =====
-- crates/runtime/src/secrets: the replacement of `${store:key}` in parameters, and the stores.
pub mod Matcher
pub mod Stores
pub mod Provider
pub mod Inject
