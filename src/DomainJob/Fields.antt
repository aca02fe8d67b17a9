-- ===== src/DomainJob/Fields.antt =====
-- The counters of `DomainJobInfo`, and the fields of typed parameters that they are read from.
use libvirt_go.Prelude.Names.{search, search-some}
use libvirt_go.Prelude.{some, Bytes, List, ◌≡◌, codes, ◌∷◌, Option, [], refl}

-- The uint64 members, in the order of `decodeDomainJobParameter`.
pub data Counter : Type 0 where
  time_elapsed time_elapsed_net time_remaining downtime downtime_net setup_time : Counter
  data_total data_processed data_remaining mem_total mem_processed mem_remaining : Counter
  mem_constant mem_normal mem_normal_bytes mem_bps mem_dirty_rate mem_page_size : Counter
  mem_iteration disk_total disk_processed disk_remaining disk_bps compression_cache : Counter
  compression_bytes compression_pages compression_cache_misses compression_overflow
        mem_postcopy_reqs disk_temp_used :
      Counter
  disk_temp_total : Counter

-- The constants `domainJob…Field`.
abbrev pub name : Counter → Bytes
name time_elapsed = codes "time_elapsed"
name time_elapsed_net = codes "time_elapsed_net"
name time_remaining = codes "time_remaining"
name downtime = codes "downtime"
name downtime_net = codes "downtime_net"
name setup_time = codes "setup_time"
name data_total = codes "data_total"
name data_processed = codes "data_processed"
name data_remaining = codes "data_remaining"
name mem_total = codes "memory_total"
name mem_processed = codes "memory_processed"
name mem_remaining = codes "memory_remaining"
name mem_constant = codes "memory_constant"
name mem_normal = codes "memory_normal"
name mem_normal_bytes = codes "memory_normal_bytes"
name mem_bps = codes "memory_bps"
name mem_dirty_rate = codes "memory_dirty_rate"
name mem_page_size = codes "memory_page_size"
name mem_iteration = codes "memory_iteration"
name disk_total = codes "disk_total"
name disk_processed = codes "disk_processed"
name disk_remaining = codes "disk_remaining"
name disk_bps = codes "disk_bps"
name compression_cache = codes "compression_cache"
name compression_bytes = codes "compression_bytes"
name compression_pages = codes "compression_pages"
name compression_cache_misses = codes "compression_cache_misses"
name compression_overflow = codes "compression_overflow"
name mem_postcopy_reqs = codes "memory_postcopy_requests"
name disk_temp_used = codes "disk_temp_used"
name disk_temp_total = codes "disk_temp_total"

-- The cases of the first `switch`.
abbrev pub all_counters : List Counter
all_counters =
    time_elapsed ∷ time_elapsed_net ∷ time_remaining ∷ downtime ∷ downtime_net ∷ setup_time
    ∷ data_total ∷ data_processed ∷ data_remaining ∷ mem_total ∷ mem_processed ∷ mem_remaining
    ∷ mem_constant ∷ mem_normal ∷ mem_normal_bytes ∷ mem_bps ∷ mem_dirty_rate ∷ mem_page_size
    ∷ mem_iteration ∷ disk_total ∷ disk_processed ∷ disk_remaining ∷ disk_bps ∷ compression_cache
    ∷ compression_bytes ∷ compression_pages ∷ compression_cache_misses ∷ compression_overflow
    ∷ mem_postcopy_reqs ∷ disk_temp_used ∷ disk_temp_total ∷ []

unfoldable pub counter_of : Bytes → Option Counter
counter_of field = search name field all_counters

-- A field is read into the counter of its name, and only there.
pub counter_of-some : (field : Bytes) (c : Counter) → counter_of field ≡ some c → field ≡ name c
unfolding counter_of
counter_of-some field c e = search-some name field all_counters c e

pub counter_of-name : (c : Counter) → counter_of (name c) ≡ some c
unfolding counter_of
counter_of-name time_elapsed = refl
counter_of-name time_elapsed_net = refl
counter_of-name time_remaining = refl
counter_of-name downtime = refl
counter_of-name downtime_net = refl
counter_of-name setup_time = refl
counter_of-name data_total = refl
counter_of-name data_processed = refl
counter_of-name data_remaining = refl
counter_of-name mem_total = refl
counter_of-name mem_processed = refl
counter_of-name mem_remaining = refl
counter_of-name mem_constant = refl
counter_of-name mem_normal = refl
counter_of-name mem_normal_bytes = refl
counter_of-name mem_bps = refl
counter_of-name mem_dirty_rate = refl
counter_of-name mem_page_size = refl
counter_of-name mem_iteration = refl
counter_of-name disk_total = refl
counter_of-name disk_processed = refl
counter_of-name disk_remaining = refl
counter_of-name disk_bps = refl
counter_of-name compression_cache = refl
counter_of-name compression_bytes = refl
counter_of-name compression_pages = refl
counter_of-name compression_cache_misses = refl
counter_of-name compression_overflow = refl
counter_of-name mem_postcopy_reqs = refl
counter_of-name disk_temp_used = refl
counter_of-name disk_temp_total = refl
