-- ===== src/Models.antt =====
-- src/models: the objects that the server keeps and the clients receive.
pub mod User
pub mod Message
pub mod Channel
