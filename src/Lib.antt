-- ===== src/Lib.antt =====
-- db-benchmark measures PostgreSQL, MongoDB and Cassandra with one set of experiments. This library
-- models its C++ code, which stands in the directory src of the repository, and proves what makes its
-- parts correct.
--
-- The parts and how they interact. src/main.cpp loads a configuration (src/config), connects to the
-- enabled databases (src/db, all behind the interface DBInterface) and generates orders (src/data). An
-- experiment (src/experiment) takes a database, the orders and the configuration; it prepares the
-- table, calls the database many times and records each call's latency (src/metrics), from which it
-- gets a result. Results go to a CSV file or to the terminal (src/results).
--
-- The files:
--   Prelude     names of the libraries passed on, and lists measured by native numbers.
--   Cpp         what the sources take from C++ and its standard library. Cpp.Outcome is how a call ends:
--               with a value, by an exception or in undefined behaviour; Cpp.Method adds the state that
--               it leaves, kept when the call throws. std::string is a list of bytes (Cpp.Text).
--               double is a type with the operations that the sources use and one law, that fractions
--               of small numbers below 1 are below 1 when rounded (Cpp.Double); its other laws are
--               hypotheses where a proof needs them (Rounding); Cpp.Milli has them all. std::sort is
--               an insertion sort (Cpp.Sort). Random numbers and std::shuffle (Cpp.Random) are
--               parameters with the standard's promise as a hypothesis (IsUniform).
--   Metrics     src/metrics: BenchmarkResult.hpp, LatencyRecorder.cpp and MetricsCollector.cpp.
--   Results     src/results: CSVWriter.cpp over a map from paths to contents, and SummaryPrinter.cpp,
--               whose methods are the texts that they print.
--   Config      src/config: the records, and ConfigLoader.cpp over a parameter for yaml-cpp.
--   Data        src/data: Order.hpp and DataGenerator.cpp.
--   Db          src/db: the interface as a record of actions on a world (Db.DbInterface) and what the
--               experiments rely on of a database (Db.Contract). The clients are modelled over parameters
--               for their libraries: MongoClient.cpp for bsoncxx and mongocxx (Db.MongoClient.Driver),
--               PostgresClient.cpp for libpqxx (Connection), CassandraClient.cpp for the session of its
--               driver (Session, and Driver in Db.CassandraClient.Client). The objects of
--               that driver, which the client frees by hand, have an account of their own
--               (Db.CassandraClient.Handles).
--   Experiment  src/experiment: ExperimentBase.cpp and Experiment1.cpp to Experiment7.cpp as methods
--               on an experiment that holds its world, its recorder, its result and its own members.
--               What the threads of Experiment2.cpp do are turns in any order (Turn, Turns), which end
--               with the program where an insert throws (Throws, Terminates); what they leave behind
--               all turns is an argument of its run. The clock, the shell and
--               LatencyRecorder::start_timer, which no file defines, are a parameter
--               (Experiment.Platform); so is the file that Experiment6.cpp reads the number of SSTables
--               from.
--   Main        src/main.cpp.
--   Tests       concrete runs, on a machine with a table and a clock (Tests.Machine), on a server of
--               documents (Tests.Server) and on tables (Tests.Postgres, Tests.Keyspace).
-- An operation has the name that it has in the source, but for words that are reserved here (record is
-- record_latency) and for parts of a function that have a name of their own.
--
-- Bounds and fuel. Unsigned arithmetic of the sources wraps at its width where it can. The digits of n
-- are printed with fuel n + 1, more than a number has. The loop that fills the description has fuel
-- 600, since a pass adds at least one byte to a text that is to have 600; with an empty base text it
-- would not end. Latencies are counted in 64 bits, and where a percentile of them is converted to a
-- double their number is bounded in the theorem. The other loops run over lists or count their turns.
--
-- Not modelled: the methods of PostgresClient that no file defines; the destructors of
-- PostgresClient and MongoClient; the types that the tables of Cassandra declare, which are not those of
-- the values that the client binds and reads (KeepsTables says of the rows of an answer no more than
-- that their status is a text); what is printed while an experiment runs; the libraries libpqxx, mongocxx, the Cassandra
-- driver and yaml-cpp, the containers, the scripts and the build. The sources name members that do not
-- exist (config_.totalrows); they are read as the members that they mean.
--
-- Comments say which code a definition models; what is proved stands here and above each theorem.
pub mod Prelude
pub mod Cpp
pub mod Metrics
pub mod Results
pub mod Config
pub mod Data
pub mod Db
pub mod Experiment
pub mod Main
mod Tests
