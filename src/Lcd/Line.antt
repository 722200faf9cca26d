-- ===== src/Lcd/Line.antt =====
-- A line ends, stays between its two ends, and leaves no gap.
pub mod Step
pub mod Paint
pub mod Loop
pub mod Draw
