-- ===== src/Updates/Start.antt =====
-- src/property_update_manager.cpp: the constructor of PropertyUpdateManager, which throws where it
-- returns nothing here. `has_callback` tells whether the flush callback is set.
use rich_graph.Base.{
  ℕ, ◌≤◌, ◌<◌, zero, suc, max, Bool, true, false, Option, none, some, List, [], ◌∷◌, replicate,
  length, set, ◌==◌, ltb, ◌||◌, not, if◌then◌else◌, ◌≡◌, refl, arith, length-replicate,
}
use rich_graph.Options.{PropertyUpdateOptions, GraphDbOptions, validate, validate_updates}
use rich_graph.Updates.Manager.{
  free, active, Buffer, PropertyUpdateManager, ready, ensure_active_buffer,
}

abbrev pub fresh_buffer : Buffer
fresh_buffer = record { state = free; records = []; bytes = 0 }

abbrev pub fresh_manager : ℕ → PropertyUpdateOptions → ℕ → PropertyUpdateManager
fresh_manager update_size options initial_commit_sequence = record {
  buffer_capacity_records = options.buffer_capacity_records;
  buffer_capacity_bytes = options.buffer_capacity_bytes;
  update_size = update_size;
  next_commit_sequence = max 1 initial_commit_sequence;
  pending = [];
  buffers =
      set (replicate options.buffer_count fresh_buffer) 0 (record fresh_buffer { state = active });
  queued_buffers = [];
  active_buffer = some 0;
  running_flushes = 0;
  stop = false;
  fatal_error = [];
  submitted_records = 0;
  submitted_bytes = 0;
  buffers_flushed = 0;
  delta_batches_published = 0;
  flush_failures = 0;
  blocked_submissions = 0;
}

unfoldable pub start_manager : ℕ → PropertyUpdateOptions → Bool → ℕ → Option PropertyUpdateManager
start_manager update_size options has_callback initial_commit_sequence =
    if not options.enabled
      || (ltb options.buffer_count 2
          || (options.buffer_capacity_records == 0
              || (options.buffer_capacity_bytes == 0 || not has_callback)))
    then none
    else some (fresh_manager update_size options initial_commit_sequence)

length-set : {A : Type 0} (xs : List A) (i : ℕ) (v : A) → length (set xs i v) ≡ length xs
length-set [] i v = refl
length-set (x ∷ xs) zero v = refl
length-set (x ∷ xs) (suc i) v = omega (arith, length-set xs i v)

validated_updates :
    (o : GraphDbOptions)
    → validate_updates o ≡ none
    → (2 ≤ o.property_updates.buffer_count)
      × ((0 < o.property_updates.buffer_capacity_records)
          × (0 < o.property_updates.buffer_capacity_bytes))
unfolding validate_updates
validated_updates o v = ground arith

validated :
    (o : GraphDbOptions)
    → validate o ≡ none
    → o.property_updates.enabled ≡ true
    → validate_updates o ≡ none
unfolding validate
validated o v e = ground arith

-- Options that Validate accepts, with property updates enabled, are options that the constructor
-- of the update manager takes with a callback, and the manager has at least two buffers, an active
-- one, and a first commit sequence over 0.
pub validate-start_manager :
    (options : GraphDbOptions) (update_size initial : ℕ)
    → validate options ≡ none
    → options.property_updates.enabled ≡ true
    → (m : PropertyUpdateManager) × (start_manager update_size options.property_updates true initial
        ≡ some m)
      × ((2 ≤ length m.buffers)
          × ((ensure_active_buffer m ≡ ready 0) × (0 < m.next_commit_sequence)))
unfolding start_manager
validate-start_manager options update_size initial v e =
    let facts = validated_updates options (validated options v e) in
    let start = fresh_manager update_size options.property_updates initial in
    let count =
      length-set (replicate options.property_updates.buffer_count fresh_buffer) 0
        (record fresh_buffer { state = active }) in
    let whole = length-replicate options.property_updates.buffer_count fresh_buffer in
    (start, ground (arith, facts), (omega (arith, count, whole, facts.0), (refl, omega arith)))
