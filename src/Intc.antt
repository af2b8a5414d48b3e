-- ===== src/Intc.antt =====
-- The interrupt controllers as the platform drives them: M-EMU/include/interface/IntCtrl.h and the
-- adapters of modules/intc, between the devices, the controllers and the lines of the harts.
-- core0IntStatus and core1IntStatus of an adapter point to the lines of the two harts, which both
-- controllers drive: they are passed as the record Lines. Of the results, `done` is MEMU_OK,
-- `failed` is MEMU_UNKNOWN and `fault` a failed assertion.
mod Sources
mod HartLines
pub mod ClintAdapter
pub mod PlicAdapter
pub mod Registration
pub mod Timer
pub mod Attach
pub mod Poll
pub mod Driven
unfoldable pub use Sources.*
pub use HartLines.*
