-- ===== src/Services/Types/Total.antt =====
-- That no method of the services panics on the type of its result.

use resilix.Services.{Session}
use resilix.Services.Types.Data.{KvReturns, HashReturns, ListsReturns, SetsReturns, ZsetReturns}
use resilix.Services.Types.More.{MessagesReturns, ScriptReturns, SpecialReturns, PipelineReturns}

-- All the methods but those of bulkService, which work in batches.
pub record Total {E : Type 0} (c : Session E) : Type 0 where
  pub kv : KvReturns c
  pub hash : HashReturns c
  pub lists : ListsReturns c
  pub sets : SetsReturns c
  pub zset : ZsetReturns c
  pub messages : MessagesReturns c
  pub script : ScriptReturns c
  pub special : SpecialReturns c
  pub pipeline : PipelineReturns c
