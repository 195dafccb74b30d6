-- ===== src/Db.antt =====
-- src/db: the interface of the databases and its clients.
pub mod DbInterface
pub mod Contract
pub mod CassandraClient
pub mod MongoClient
pub mod PostgresClient
