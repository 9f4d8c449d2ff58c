-- ===== src/RtspSync.antt =====
-- rtspSync.cpp: the generations that RTSP pipelines share, the wait that a generation can end, and
-- the frame numbers that are put into H.265 streams.
pub mod Generation
pub mod Wait
pub mod FrameId
mod Tests
