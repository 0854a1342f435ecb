-- ===== src/NativeTools.antt =====
-- providers/nvidia_nim/native_tool_stream.py: the tool markup that a model writes into its text.
pub mod Framer
pub mod Markup
pub mod Scan
pub mod Blocks
pub mod Framed
pub mod Whole
pub mod Plain
pub mod Printed
pub mod RoundTrip
pub mod Enough
mod Tests
