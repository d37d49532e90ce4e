-- ===== src/Http.antt =====
-- src/subscription: the paths, formats and answers of the subscription listener.
pub mod Texts
pub mod Format
pub mod Secret
pub mod Handler
