-- ===== src/Ocr.antt =====
-- src/ocr: the reader of the answers of the Screen AI component, and the hit test on paragraphs.
pub mod Shapes
pub mod Wire
pub mod Split
pub mod ScreenAi
pub mod HitTest
