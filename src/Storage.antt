-- ===== src/Storage.antt =====
-- server/internal/storage: what is stored of an upload.
pub mod Gif
pub mod Image
pub mod Mp4
pub mod Media
