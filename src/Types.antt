-- ===== src/Types.antt =====
-- packages/types/src: the data that the engine, the worker and the API share.
mod Core
mod Signal
mod Config
pub use Core.*
pub use Signal.*
pub use Config.*
