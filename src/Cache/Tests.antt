-- ===== src/Cache/Tests.antt =====
-- The theorems on the cache at concrete caches.
use backup_gatech.Common.{ℕ, ◌<◌, ◌≡◌, true, false, refl, arith, length}
use backup_gatech.Cache.{
  Block, Config, Stats, Cache, configure, cache_init, cache_access, count_access, get_tag,
  get_index, read_op, write_op,
}
use backup_gatech.Cache.Init.{cache_init-IsValid}
use backup_gatech.Cache.Access.{IsValid, cache_access-IsValid, cache_access-cache_access}

abbrev no_stats : Stats
no_stats = record {
  accesses = 0;
  reads = 0;
  read_misses = 0;
  writes = 0;
  write_misses = 0;
  misses = 0;
  write_backs = 0;
}

-- Two lines of two blocks of 16 bytes.
abbrev small : Config
small = configure 6 1 4

abbrev cold : Cache
cold = cache_init 6 1 4 no_stats

abbrev old_block : Block
old_block = record { timestamp = 4; valid = true; dirty = true; tag = 6 }

abbrev new_block : Block
new_block = record { timestamp = 9; valid = true; dirty = false; tag = 2 }

cold-IsValid : IsValid cold × ((addr : ℕ) → get_index small addr < length cold.lines)
cold-IsValid = cache_init-IsValid 6 1 4 no_stats (omega arith) (omega arith)

cache_access-IsValid_example : IsValid (cache_access small write_op 0x1234 cold)
cache_access-IsValid_example =
    cache_access-IsValid small write_op 0x1234 cold (cold-IsValid.1 0x1234) cold-IsValid.0

cache_access-cache_access_example :
    (cache_access small write_op 0x1238 (cache_access small read_op 0x1234 cold)).stats
    ≡ count_access write_op (cache_access small read_op 0x1234 cold).stats
unfolding get_index get_tag configure
cache_access-cache_access_example =
    cache_access-cache_access small read_op write_op 0x1234 0x1238 cold (cold-IsValid.1 0x1234)
      cold-IsValid.0 refl refl
