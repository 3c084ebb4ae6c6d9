-- ===== src/Lib.antt =====
-- huracan, the indexer of Sui objects: a model of its crawl of the chain, of the pipelines that carry
-- the changed objects to MongoDB, and of its client of the RPC providers, with theorems on both.
--
-- The program. `run` (main/src/etl.rs) polls the newest transactions and follows the checkpoints of
-- the chain with livescans; when it is too far behind, it starts a backfill. Crawls (`do_scan`) of
-- several workers find the changed objects of each checkpoint. Object workers
-- (`transform_batched`) fetch the objects by RPC, mongo workers (`load_batched`) write them, and the
-- tail of the pipeline (`spawn_pipeline_tail`) counts what was loaded against what the crawl
-- announced, to save the checkpoints that are complete. The next backfill leaves these out. The
-- server (server/src/main.rs) reads the stored objects and answers GraphQL queries about them.
--
-- The files:
--   Prelude, Prelude/*   shared names, tests on numbers, integers, lists
--   Conf                 main/src/conf.rs: the structs, AppConfig::new, AppConfig::sui
--   App                  main/src/main.rs: main; the topics of main/src/pulsar.rs
--   Influx               main/src/influx.rs: the points of write_metric_...
--   Server               server/src/main.rs: the data of the GraphQL API
--   Server/Documents     parse_value, parse_fields
--   Server/TypeNames     parse: the type of an object
--   Server/Objects       parse, and what dynamic_fields makes of an object
--   Server/Queries       objects, dynamic_fields: filters and answers
--   Mongo                main/src/mongo.rs: mongo_checkpoint, mongo_collection_name
--   Mongo/Documents      the collection of checkpoints, as far as the code relies on MongoDB
--   Utils                main/src/utils.rs: make_descending_ranges
--   Client/Changes       main/src/client.rs: parse_change
--   Client/Objects       main/src/client.rs: parse_get_object_response, with
--                        check_obj_type_from_string_vec of main/src/utils.rs
--   Client/Rotation      macros/src/lib.rs: with_client_rotation; ClientPool of main/src/client.rs
--   Etl/Types            main/src/etl.rs: ObjectItem, StepStatus, IngestRoute
--   Etl/Scan             do_scan
--   Etl/Backfill         spawn_backfill_pipeline
--   Etl/Runs             spawn_backfill_pipeline and mongo_checkpoint, over several backfills
--   Etl/Livescan         run: the plan of a round, a livescan; spawn_livescan
--   Etl/Livescan/Rounds  run: its loop, and the task that passes on what the polling finds
--   Etl/Poll             do_poll
--   Etl/Walk             traverse_checkpoints, do_walk
--   Etl/Transform        transform_batched, and the object workers
--   Etl/Load             load_batched
--   Etl/Tail             spawn_pipeline_tail: the last task
--   Etl/Pipeline         spawn_pipeline_tail as a whole: its channels, workers and tasks
--   Tests                runs on concrete inputs
--
-- The modelling. A task is a function on a record of its local variables and of what it has sent; the
-- other tasks, the RPC servers, the databases and the clock enter by their answers, as arguments.
-- Channels, the stop flag and panics are explicit results. The object types of sui_types and the key
-- store RocksDB are parameters with the behaviour that the code relies on. Checkpoints, ids, versions
-- and times are natural numbers; u64, u8 and i64 arithmetic wraps as in a release build where the
-- source can reach the bound; the i64 counters of the tail do not wrap. The evaluation of updates and
-- of filters by MongoDB is a parameter with laws, and so are Base64 and the points that InfluxDB takes.
-- A checkpoint counts as saved when the tail calls `mongo_checkpoint` for it; what its commands leave
-- in the database, and what the next backfill makes of that, is in Etl/Runs. There a backfill may be cut
-- off in any state of its pipeline, and only backfills write to the collection. Texts of the server
-- are lists of code points.
--
-- Fuel. `scan_loop` runs on fuel, one more than the first checkpoint of the worker, since each
-- round goes down by one at least. The fuel of `do_walk` is the number of its rounds, as no number of
-- them is enough. The answers to a crawl are those up to a moment, in a finite list: a crawl whose
-- pages never end is still waiting for an answer at each such moment. A result `none` of the loop of
-- `run` is a panic, an `unreachable!()` or a livescan that never ends.
--
-- Not modelled. Log lines, tracing, the singletons and the setup of connections, which are I/O (whether they succeed
-- is an argument of `main`); reading the configuration file, which is the work of figment; the schema
-- and the routes of the GraphQL server, which are declarations for libraries; the sizes of channels and
-- chunks, which only say when a task waits, but for the channel of a livescan's control messages, whose
-- size decides whether it ends.
pub mod Prelude
pub mod Utils
pub mod Client
pub mod Mongo
pub mod Conf
pub mod Etl
pub mod Server
pub mod App
pub mod Influx
mod Tests
