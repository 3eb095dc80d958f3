-- ===== src/Options.antt =====
-- include/richgraph/options.h and src/options.cpp: the options and their validation. Of the options
-- those are kept that Validate reads.
use rich_graph.Base.{ℕ, ◌^◌, ◌-◌, Bool, Option, none, some, ◌==◌, ltb, not, if◌then◌else◌}
use rich_graph.Delta.Create.{DeltaDurability}

pub record PropertyUpdateOptions : Type 0 where
  pub enabled : Bool
  pub buffer_capacity_records : ℕ
  pub buffer_capacity_bytes : ℕ
  pub buffer_count : ℕ
  pub delta_chain_merge_threshold : ℕ
  pub durability : DeltaDurability

pub record GraphDbOptions : Type 0 where
  pub memtable_count : ℕ
  pub default_memtable_capacity : ℕ
  pub max_subcompactions : ℕ
  pub cache_sst_data : Bool
  pub property_updates : PropertyUpdateOptions

-- The messages that Validate returns.
pub data OptionsError : Type 0 where
  few_memtables no_memtable_capacity memtable_capacity_over_limit no_subcompactions : OptionsError
  needs_cache few_buffers no_capacity_records no_capacity_bytes : OptionsError
  capacity_records_over_limit no_merge_threshold : OptionsError

abbrev pub max_u32 : ℕ
max_u32 = 2 ^ 32 - 1

unfoldable pub validate_updates : GraphDbOptions → Option OptionsError
validate_updates o =
    let p = o.property_updates in
    if not o.cache_sst_data
    then some needs_cache
    else if ltb p.buffer_count 2
    then some few_buffers
    else if p.buffer_capacity_records == 0
    then some no_capacity_records
    else if p.buffer_capacity_bytes == 0
    then some no_capacity_bytes
    else if ltb max_u32 p.buffer_capacity_records
    then some capacity_records_over_limit
    else if p.delta_chain_merge_threshold == 0
    then some no_merge_threshold
    else none

-- Nothing where the string is empty.
unfoldable pub validate : GraphDbOptions → Option OptionsError
unfolding validate_updates
validate o =
    if ltb o.memtable_count 2
    then some few_memtables
    else if o.default_memtable_capacity == 0
    then some no_memtable_capacity
    else if ltb max_u32 o.default_memtable_capacity
    then some memtable_capacity_over_limit
    else if o.max_subcompactions == 0
    then some no_subcompactions
    else if o.property_updates.enabled
    then validate_updates o
    else none
