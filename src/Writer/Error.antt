-- ===== src/Writer/Error.antt =====
-- `WriterError` (src/writer/error.rs). A message that the code formats is the constructor for its
-- format string with the arguments that are put in.
use bitcoin_chain_graph.Common.{ℕ, List, Bool, true, false}

pub data Message : Type 0 where
  text : List ℕ → Message
  cache_miss : List ℕ → Message
  same_block_miss : List ℕ → Message
  missing_in_cache : ℕ → ℕ → List (List ℕ) → Message
  missing_after_fallback : ℕ → ℕ → List (List ℕ) → Message
  block_not_found : ℕ → Message

pub data WriterError : Type 0 where
  output_not_found : Message → WriterError
  connection_failed : Message → WriterError
  query_failed : Message → WriterError
  checkpoint_error : Message → WriterError
  serialization_error : Message → WriterError
  database_error : Message → WriterError
  constraint_violation : Message → WriterError
  transaction_failed : Message → WriterError
  reorg_detected : ℕ → List ℕ → List ℕ → WriterError

unfoldable pub is_retryable : WriterError → Bool
is_retryable (query_failed m) = true
is_retryable (connection_failed m) = true
is_retryable _ = false
