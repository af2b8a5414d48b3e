-- ===== src/Platform.antt =====
-- DefaultPlatform (modules/platform/default/include/DefaultPlatform.hpp): two harts, the memory and
-- the devices behind the bus, and the loop that drives them.
mod Loop
mod Boot
pub mod Valid
pub mod Booted
pub mod Timer
unfoldable pub use Loop.*
unfoldable pub use Boot.*
