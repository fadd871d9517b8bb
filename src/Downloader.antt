-- ===== src/Downloader.antt =====
-- src/downloader: the pieces of a torrent on their way in.
pub mod PieceAssembler
pub mod WorkQueue
