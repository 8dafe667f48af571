-- ===== src/Ps2.antt =====
-- kernel/src/ps2: the 8042 controller, the keyboard and the mouse behind it, and `init`.
pub mod Port
pub mod Bits
pub mod Controller
pub mod Waiting
pub mod Keyboard
pub mod Mouse
pub mod Init
pub mod Handshake
pub mod Resets
pub mod Chip
pub mod Answers
pub mod Configured
pub mod Completes
mod Examples
pub mod Sample
