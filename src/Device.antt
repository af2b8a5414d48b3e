-- ===== src/Device.antt =====
-- What an access of a device's registers comes to.
mod Memcpy
mod Feedback
unfoldable pub use Memcpy.*
pub use Feedback.*
