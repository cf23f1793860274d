-- ===== src/Wire.antt =====
-- The LWP/1 codec of lotor/wire.go: variable-length numbers, values and frames.
pub mod Reader
pub mod Numbers
pub mod Values
pub mod Frames
mod Tests
