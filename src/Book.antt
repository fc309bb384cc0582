-- ===== src/Book.antt =====
-- include/book: the order book.
pub mod Types
pub mod OrderBook
pub mod Tests
