-- ===== src/Ingestion/Chunks.antt =====
-- Splitting a batch into database transactions (src/domain/ingestion.rs,
-- `compute_adaptive_chunks`).
pub mod Budget
use bitcoin_chain_graph.Common.{
  ℕ, suc, ◌+◌, ◌%◌, ◌^◌, Bool, List, [], ◌∷◌, ◌++◌, length, ltb, ◌==◌, ◌&&◌, if◌then◌else◌,
}

-- `start..end`.
abbrev pub Range : Type 0
Range = ℕ × ℕ

-- `+` on `usize`, as release builds have it.
abbrev pub usize_add : ℕ → ℕ → ℕ
usize_add a b = (a + b) % 2 ^ 64

pub record ChunkState : Type 0 where
  pub chunks : List Range
  pub chunk_start : ℕ
  pub chunk_memory : ℕ

-- A block that would exceed the budget closes the chunk before it.
unfoldable pub close_before : ℕ → ℕ → ℕ → ChunkState → ChunkState
close_before max_memory_bytes i mem s =
    if ltb max_memory_bytes (usize_add s.chunk_memory mem) && ltb s.chunk_start i
    then record { chunks = s.chunks ++ (s.chunk_start, i) ∷ []; chunk_start = i; chunk_memory = 0 }
    else s

-- A block over the budget by itself makes a chunk of its own.
unfoldable pub close_single : ℕ → ℕ → ℕ → ChunkState → ChunkState
close_single max_memory_bytes i mem s =
    if ltb max_memory_bytes mem && i == s.chunk_start
    then record {
      chunks = s.chunks ++ (s.chunk_start, suc i) ∷ [];
      chunk_start = suc i;
      chunk_memory = 0;
    }
    else s

unfoldable pub chunk_step : ℕ → ℕ → ℕ → ChunkState → ChunkState
unfolding close_before close_single
chunk_step max_memory_bytes i mem s =
    let s1 = close_before max_memory_bytes i mem s in
    close_single max_memory_bytes i mem (record s1 { chunk_memory = usize_add s1.chunk_memory mem })

-- `for (i, &mem) in block_memories.iter().enumerate()`.
unfoldable pub chunk_loop : ℕ → ℕ → List ℕ → ChunkState → ChunkState
unfolding chunk_step
chunk_loop max_memory_bytes i [] s = s
chunk_loop max_memory_bytes i (mem ∷ mems) s =
    chunk_loop max_memory_bytes (suc i) mems (chunk_step max_memory_bytes i mem s)

-- The final chunk, if there are remaining blocks.
unfoldable pub close_final : ℕ → ChunkState → List Range
close_final n s = if ltb s.chunk_start n then s.chunks ++ (s.chunk_start, n) ∷ [] else s.chunks

unfoldable pub compute_adaptive_chunks : List ℕ → ℕ → List Range
unfolding chunk_loop close_final
compute_adaptive_chunks [] max_memory_bytes = []
compute_adaptive_chunks (mem ∷ mems) max_memory_bytes = close_final (length (mem ∷ mems)) (
    chunk_loop max_memory_bytes 0 (mem ∷ mems)
      (record { chunks = []; chunk_start = 0; chunk_memory = 0 }))
