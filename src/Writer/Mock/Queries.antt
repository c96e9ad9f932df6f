-- ===== src/Writer/Mock/Queries.antt =====
-- The look-ups, the checkpoint and the removal of a block in `MockWriter` (src/writer/mock.rs).
use Prim.Native.String.{String}
use bitcoin_chain_graph.Common.{
  ℕ, ◌%◌, ◌^◌, max, Bool, true, false, not, List, [], ◌∷◌, ◌++◌, map, Option, none, some, length,
  replicate, ◌==◌, if◌then◌else◌,
}
use bitcoin_chain_graph.Common.Result.{Result, ok, err}
use bitcoin_chain_graph.Common.Int.{ℤ, pos}
use bitcoin_chain_graph.Common.Exec.{Exec}
use bitcoin_chain_graph.Writer.Error.{
  WriterError, output_not_found, query_failed, text, block_not_found,
}
use bitcoin_chain_graph.Writer.Data.{
  Text, BlockData, TransactionData, OutputData, InputData, CheckpointData, PerformsData,
  BenefitsToData, OutputLookupResult,
}
use bitcoin_chain_graph.Writer.Mock.{Method, Tables, MockStorage}
use bitcoin_chain_graph.Writer.Mock.Writes.{check_failure, guarded, on_tables}

-- `==` of two texts, and `contains`.
unfoldable pub text_eq : Text → Text → Bool
text_eq [] [] = true
text_eq (a ∷ xs) (b ∷ ys) = if a == b then text_eq xs ys else Bool.false
text_eq [] (b ∷ ys) = false
text_eq (a ∷ xs) [] = false

unfoldable pub contains : List Text → Text → Bool
unfolding text_eq
contains [] x = false
contains (y ∷ ys) x = if text_eq y x then true else contains ys x

-- `filter` and `retain`.
unfoldable pub retain {ℓ} : {A : Type ℓ} → (A → Bool) → List A → List A
retain keep [] = []
retain keep (x ∷ xs) = let rest = retain keep xs in if keep x then x ∷ rest else rest

unfoldable pub find {ℓ} : {A : Type ℓ} → (A → Bool) → List A → Option A
find test [] = none
find test (x ∷ xs) = if test x then some x else find test xs

unfoldable pub lookup_outputs_batch :
    List Text → Exec MockStorage WriterError (List OutputLookupResult)
unfolding retain contains
lookup_outputs_batch output_ids s =
    let (s', failure) = check_failure Method.lookup_outputs_batch s in
    elim failure [
      | some e ↦ (s', err e)
      | none ↦ (
        record s' { call_log = s'.call_log ++ Method.lookup_outputs_batch ∷ [] },
        ok (retain (λ r. contains output_ids r.output_id) s'.lookup_outputs_responses),
      )
    ]

unfoldable pub mark_output_spent : Text → Text → ℕ → Exec MockStorage WriterError Unit
unfolding find text_eq
mark_output_spent output_id spent_in_txid spent_at_height s =
    elim (find (λ (o : OutputData). text_eq o.output_id output_id) s.tables.outputs) [
      | none ↦ (s, err (output_not_found (text output_id)))
      | some o ↦ (s, ok tt)
    ]

-- "blk00000.dat".
abbrev first_file : Text
first_file = b'b' ∷ b'l' ∷ b'k' ∷ b'0' ∷ b'0' ∷ b'0' ∷ b'0' ∷ b'0' ∷ b'.' ∷ b'd' ∷ b'a' ∷ b't' ∷ []

unfoldable pub create_checkpoint : ℤ → Exec MockStorage WriterError Unit
create_checkpoint now s = (
  on_tables
      (λ t. record t {
        checkpoint = some (record {
          last_processed_height = pos 0;
          last_processed_hash = replicate 64 b'0';
          last_processed_file = first_file;
          last_processed_file_offset = some 0;
          timestamp = now;
          status = "in_progress";
        });
      })
      s,
  ok tt,
)

unfoldable pub store_checkpoint : CheckpointData → MockStorage → MockStorage
store_checkpoint c s = record s {
  checkpoint_written_in_txn = if s.in_transaction then true else s.checkpoint_written_in_txn;
  tables = record s.tables { checkpoint = some c };
}

unfoldable pub update_checkpoint : CheckpointData → Exec MockStorage WriterError Unit
unfolding guarded store_checkpoint
update_checkpoint c = guarded Method.update_checkpoint (store_checkpoint c)

unfoldable pub get_checkpoint : Exec MockStorage WriterError (Option CheckpointData)
get_checkpoint s = (s, ok s.tables.checkpoint)

unfoldable pub map_checkpoint :
    (CheckpointData → CheckpointData) → Option CheckpointData → Option CheckpointData
map_checkpoint f none = none
map_checkpoint f (some c) = some (f c)

unfoldable pub mark_checkpoint_complete : Exec MockStorage WriterError Unit
unfolding map_checkpoint
mark_checkpoint_complete s = (
  on_tables
      (λ t. record t {
        checkpoint = map_checkpoint (λ c. record c { status = "completed" }) t.checkpoint;
      })
      s,
  ok tt,
)

unfoldable pub set_checkpoint_status : ℤ → String → Exec MockStorage WriterError Unit
unfolding map_checkpoint
set_checkpoint_status now status s = (
  on_tables
      (λ t. record t {
        checkpoint =
            map_checkpoint (λ c. record c { status = status; timestamp = now }) t.checkpoint;
      })
      s,
  ok tt,
)

abbrev map_hash : Option BlockData → Option Text
map_hash none = none
map_hash (some b) = some b.hash

unfoldable pub lookup_block_hash : ℕ → Exec MockStorage WriterError (Option Text)
unfolding find
lookup_block_hash height s =
    (s, ok (map_hash (find (λ (b : BlockData). b.height == height) s.tables.blocks)))

unfoldable pub rollback_tables : ℕ → Tables → Tables
unfolding retain contains
rollback_tables height t =
    let txids =
      map (λ (x : TransactionData). x.txid)
        (retain (λ (x : TransactionData). x.block_height == height) t.transactions) in
    record t {
      performs = retain (λ (p : PerformsData). not (contains txids p.to_txid)) t.performs;
      benefits_to = retain (λ (b : BenefitsToData). not (contains txids b.from_txid)) t.benefits_to;
      inputs = retain (λ (i : InputData). not (contains txids i.txid)) t.inputs;
      outputs = retain (λ (o : OutputData). not (contains txids o.txid)) t.outputs;
      transactions =
          retain (λ (x : TransactionData). not (x.block_height == height)) t.transactions;
      blocks = retain (λ (b : BlockData). not (b.height == height)) t.blocks;
    }

unfoldable pub rollback_block : ℕ → Exec MockStorage WriterError Unit
unfolding rollback_tables
rollback_block height s = (on_tables (rollback_tables height) s, ok tt)

abbrev max_option : ℕ → Option ℕ → Option ℕ
max_option n none = some n
max_option n (some m) = some (max n m)

unfoldable pub max_height : List BlockData → Option ℕ
max_height [] = none
max_height (b ∷ blocks) = max_option b.height (max_height blocks)

unfoldable pub get_max_block_height : Exec MockStorage WriterError (Option ℕ)
unfolding max_height
get_max_block_height s = (s, ok (max_height s.tables.blocks))

abbrev expected_count : Option BlockData → ℕ → ℕ → Result WriterError (ℕ × ℕ)
expected_count none height actual = err (query_failed (block_not_found height))
expected_count (some b) height actual = ok (b.tx_count, actual)

-- `count() as u32`.
unfoldable pub check_block_complete : ℕ → Exec MockStorage WriterError (ℕ × ℕ)
unfolding find retain
check_block_complete height s =
    let actual =
      length (retain (λ (x : TransactionData). x.block_height == height) s.tables.transactions)
      % 2 ^ 32 in
    (s, expected_count (find (λ (b : BlockData). b.height == height) s.tables.blocks) height actual)
