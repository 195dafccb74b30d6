-- ===== src/Tests.antt =====
-- Runs of the model on concrete inputs.
mod Metrics
mod Results
mod Config
mod Machine
mod Data
mod Db
mod Server
mod Mongo
mod Postgres
mod Keyspace
mod Cassandra
mod Objects
mod Experiment
mod Reads
mod Main
mod Threads
