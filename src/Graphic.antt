-- ===== src/Graphic.antt =====
-- The graphics code: pixels and what the bootloader hands over (common/src/graphic.rs), the font,
-- the frame buffer and the console (kernel/src/graphic).
pub mod Pixel
pub mod Font
pub mod FrameBuffer
pub mod Screen
pub mod Console
pub mod Static
pub mod Cursor
pub mod Display
pub mod Sample
mod Examples
