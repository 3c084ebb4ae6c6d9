-- ===== src/Mongo/Names.antt =====
-- main/src/mongo.rs: the names of the collections.
use Prim.Native.String.{String, ◌++◌}

-- `AppConfig`, as far as it names the collections.
pub record CollectionNames : Type 0 where
  pub env : String
  pub net : String
  pub collectionbase : String

unfoldable pub mongo_collection_name : CollectionNames → String → String
mongo_collection_name cfg suffix = cfg.env ++ "_" ++ cfg.net ++ "_" ++ cfg.collectionbase ++ suffix
