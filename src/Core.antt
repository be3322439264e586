-- ===== src/Core.antt =====
-- app/core: the enums, the errors and the settings; and the JSON values that payloads, results and
-- error details are.
pub mod Json
pub mod Enums
pub mod Errors
pub mod Config
pub mod Exec
