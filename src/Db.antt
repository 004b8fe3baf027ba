-- ===== src/Db.antt =====
-- What leaves the engines for the database: db/DBWriter and db/BatchBuffer.
pub mod DbWriter
