-- ===== src/Examples/Cache.antt =====
-- Tests of the cache: the store and its specification, the start, and Redis.
use gitstafette.Cache.Create.{creates, sets_up}
use gitstafette.Cache.Begun.{IsStart}
use gitstafette.Common.{◌↔◌, true}
use gitstafette.Examples.{traced}
use gitstafette.Common.{Option, ◌≡◌, none, some, arith}
use gitstafette.Cache.Startup.{RedisConfig, RedisLibrary, Started, init_cache}
use gitstafette.Cache.Begun.{init_cache_lem}

-- A server that answers, of a configuration whose database is no number.
abbrev library : RedisLibrary
library = record { atoi = λ text. none; ping = λ options. none }

abbrev config : Option RedisConfig
config = some (record { host = "localhost"; port = "6379"; password = ""; database = "first" })

init_cache_lem_example :
    ((started : Started) × (init_cache library traced "12345,537845873" config ≡ creates started)
      × IsStart library "12345,537845873" config started)
    ↔ (sets_up traced ≡ true)
init_cache_lem_example = init_cache_lem library traced "12345,537845873" config (omega arith)
