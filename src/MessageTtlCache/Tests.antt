-- ===== src/MessageTtlCache/Tests.antt =====
-- Tests and instances for `MessageTtlCache` of src/core/secureChannel.js.
use metrice.Base.{[], ◌∷◌, codes}
use metrice.MessageTtlCache.{MessageTtlCache}

abbrev started : MessageTtlCache
started = record { ttl_ms = 60; max_capacity = 2; cache = (codes "m0", 10) ∷ (codes "m1", 90) ∷ [] }
