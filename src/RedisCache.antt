-- ===== src/RedisCache.antt =====
-- The caches of src/infrastructure/redis_cache.cpp that are kept in memory.
use wall.Prelude.{Option, String, value_or}
use wall.Prelude.Dict.{Dict, insert, lookup}
use wall.Storage.{MarketSnapshot}

-- `RedisTransactionCache`
unfoldable pub set_status : Dict String → String → String → Dict String
set_status statuses id status = insert id status statuses

unfoldable pub get_status : Dict String → String → String
get_status statuses id = value_or (lookup id statuses) ""

-- `RedisMarketStateCache`
unfoldable pub upsert_snapshot : Dict MarketSnapshot → MarketSnapshot → Dict MarketSnapshot
upsert_snapshot snapshots m = insert m.instrument_id m snapshots

unfoldable pub get_snapshot : Dict MarketSnapshot → String → Option MarketSnapshot
get_snapshot snapshots id = lookup id snapshots
