-- ===== src/Ingestion/Resume.antt =====
-- Resume and reorganisation (src/domain/ingestion.rs): `get_resume_height`,
-- `sync_checkpoint_with_db`, `validate_parent_hash` and `rollback_to_height`, over any database. A
-- block is given by the text of its previous hash. The clock is an argument.
pub mod Walk
pub mod Synced
pub mod Reorg
use bitcoin_chain_graph.Common.{
  ℕ, zero, suc, ◌+◌, ◌-◌, ◌%◌, ◌^◌, Bool, true, false, ◌&&◌, List, [], ◌∷◌, Option, none, some, ltb,
  leb, ◌==◌, if◌then◌else◌,
}
use bitcoin_chain_graph.Common.Result.{Result, ok, err}
use bitcoin_chain_graph.Common.Int.{ℤ, pos, negsuc, as_i32, as_u32, ltz, sucz}
use bitcoin_chain_graph.Common.Exec.{Exec, ◌>>=◌, ◌>>◌, return}
use bitcoin_chain_graph.Writer.Error.{WriterError, reorg_detected}
use bitcoin_chain_graph.Writer.Data.{Text, CheckpointData}
use bitcoin_chain_graph.Writer.Graph.{GraphWriter}
use bitcoin_chain_graph.Writer.Mock.Queries.{text_eq}

-- "recovered", "unknown" and "rpc".
abbrev pub recovered_text : Text
recovered_text = b'r' ∷ b'e' ∷ b'c' ∷ b'o' ∷ b'v' ∷ b'e' ∷ b'r' ∷ b'e' ∷ b'd' ∷ []

abbrev pub unknown_text : Text
unknown_text = b'u' ∷ b'n' ∷ b'k' ∷ b'n' ∷ b'o' ∷ b'w' ∷ b'n' ∷ []

abbrev pub rpc_text : Text
rpc_text = b'r' ∷ b'p' ∷ b'c' ∷ []

abbrev pub or_text : Text → Option Text → Text
or_text d none = d
or_text d (some t) = t

abbrev pub checkpoint_height : Option CheckpointData → ℤ
checkpoint_height none = negsuc 0
checkpoint_height (some c) = c.last_processed_height

abbrev pub checkpoint_file : Option CheckpointData → Text
checkpoint_file none = recovered_text
checkpoint_file (some c) = c.last_processed_file

-- The height to resume from, by the checkpoint.
unfoldable pub resume_of : Option CheckpointData → ℕ
resume_of none = 0
resume_of (some c) =
    if ltz c.last_processed_height (pos 0) then 0 else as_u32 (sucz c.last_processed_height)

-- `(expected == actual && actual > 0)`.
abbrev pub is_complete : ℕ × ℕ → Bool
is_complete (expected, actual) = expected == actual && ltb 0 actual

abbrev pub above : Option ℕ → ℤ → Bool
above none h = false
above (some db_height) h = ltz h (as_i32 db_height)

-- What a stored hash says of the block.
unfoldable pub parent_matches : Text → ℕ → Option Text → Result WriterError (Unit {0})
unfolding text_eq
parent_matches expected height none = ok tt
parent_matches expected height (some hash) =
    if text_eq hash expected then ok tt else err (reorg_detected height expected hash)

-- The first height above the checkpoint. `as u32 + 1` wraps around for a checkpoint of -1.
abbrev pub first_above : ℤ → ℕ
first_above h = (as_u32 h + 1) % 2 ^ 32

unfoldable pub synced_checkpoint : ℤ → Option CheckpointData → ℕ → Option Text → CheckpointData
synced_checkpoint now c height hash = record {
  last_processed_height = as_i32 height;
  last_processed_hash = or_text unknown_text hash;
  last_processed_file = checkpoint_file c;
  last_processed_file_offset = none;
  timestamp = now;
  status = "in_progress";
}

unfoldable pub rolled_back_checkpoint : ℤ → ℕ → Text → CheckpointData
rolled_back_checkpoint now fork_point hash = record {
  last_processed_height = as_i32 fork_point;
  last_processed_hash = hash;
  last_processed_file = rpc_text;
  last_processed_file_offset = none;
  timestamp = now;
  status = "in_progress";
}

module _ (W : GraphWriter) where
  open W use {
    Db, get_checkpoint, get_max_block_height, check_block_complete, rollback_block,
    lookup_block_hash, update_checkpoint,
  }

  unfoldable pub get_resume_height : Exec Db WriterError ℕ
  unfolding resume_of
  get_resume_height = get_checkpoint >>= λ c. return (resume_of c)

  -- The loop over the heights below `low + n`, from the highest: it stops at a complete block, and
  -- rolls back each other block.
  unfoldable pub walk_back : ℕ → ℕ → Exec Db WriterError (Option ℕ)
  walk_back zero low = return none
  walk_back (suc n) low =
      let rest = rollback_block (low + n) >> walk_back n low in
      check_block_complete (low + n) >>= λ counts.
      if is_complete counts then return (some (low + n)) else rest

  -- The checkpoint moves up to a complete block that was found.
  unfoldable pub move_checkpoint : ℤ → Option CheckpointData → Option ℕ → Exec Db WriterError ℕ
  unfolding synced_checkpoint
  move_checkpoint now c none = return (as_u32 (sucz (checkpoint_height c)))
  move_checkpoint now c (some height) =
      if ltz (checkpoint_height c) (as_i32 height)
      then (lookup_block_hash height >>= λ hash.
          update_checkpoint (synced_checkpoint now c height hash)
          >> return (as_u32 (sucz (as_i32 height))))
      else return (as_u32 (sucz (as_i32 height)))

  unfoldable pub sync_above : ℤ → Option CheckpointData → Option ℕ → Exec Db WriterError ℕ
  unfolding get_resume_height walk_back move_checkpoint
  sync_above now c none = get_resume_height
  sync_above now c (some db_height) =
      if ltz (checkpoint_height c) (as_i32 db_height)
      then (walk_back (suc db_height - first_above (checkpoint_height c))
            (first_above (checkpoint_height c))
          >>= λ found. move_checkpoint now c found)
      else get_resume_height

  unfoldable pub sync_checkpoint_with_db : ℤ → Exec Db WriterError ℕ
  unfolding sync_above
  sync_checkpoint_with_db now =
      get_checkpoint >>= λ c. (get_max_block_height >>= λ db_height. sync_above now c db_height)

  unfoldable pub validate_parent_hash : Text → ℕ → Exec Db WriterError Unit
  unfolding parent_matches
  validate_parent_hash prev_hash zero = return tt
  validate_parent_hash prev_hash (suc parent) =
      lookup_block_hash parent >>= λ hash. λ s. (s, parent_matches prev_hash (suc parent) hash)

  -- `for height in (fork_point + 1..=current_tip).rev()`.
  unfoldable pub rollback_range : ℕ → ℕ → Exec Db WriterError Unit
  rollback_range zero fork_point = return tt
  rollback_range (suc n) fork_point =
      rollback_block (suc (fork_point + n)) >> rollback_range n fork_point

  unfoldable pub reset_checkpoint : ℤ → ℕ → Option Text → Exec Db WriterError Unit
  unfolding rolled_back_checkpoint
  reset_checkpoint now fork_point none = return tt
  reset_checkpoint now fork_point (some hash) =
      update_checkpoint (rolled_back_checkpoint now fork_point hash)

  unfoldable pub rollback_to_height : ℤ → ℕ → ℕ → Exec Db WriterError ℕ
  unfolding rollback_range reset_checkpoint
  rollback_to_height now current_tip fork_point =
      if leb current_tip fork_point
      then return 0
      else (rollback_range (current_tip - fork_point) fork_point
          >> (lookup_block_hash fork_point >>= λ hash. reset_checkpoint now fork_point hash)
          >> return (current_tip - fork_point))
