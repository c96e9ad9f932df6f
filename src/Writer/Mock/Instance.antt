-- ===== src/Writer/Mock/Instance.antt =====
-- `MockWriter` as a `GraphWriter` (src/writer/mock.rs).
use bitcoin_chain_graph.Common.Int.{ℤ}
use bitcoin_chain_graph.Writer.Graph.{GraphWriter}
use bitcoin_chain_graph.Writer.Mock.{MockStorage}
use bitcoin_chain_graph.Writer.Mock.Writes.{
  write_blocks, write_transactions, write_outputs, write_has_output_relationships, write_inputs,
  write_performs, write_benefits_to, write_blocks_fast, write_transactions_fast, write_outputs_fast,
  write_inputs_fast, init_schema,
}
use bitcoin_chain_graph.Writer.Mock.Queries.{
  lookup_outputs_batch, mark_output_spent, create_checkpoint, update_checkpoint, get_checkpoint,
  mark_checkpoint_complete, set_checkpoint_status, lookup_block_hash, rollback_block,
  get_max_block_height, check_block_complete,
}
use bitcoin_chain_graph.Writer.Mock.Session.{
  begin_transaction, commit_transaction, rollback_transaction,
}

-- The implementation, with the time.
abbrev pub mock_writer : ℤ → GraphWriter
mock_writer now = record {
  Db = MockStorage;
  init_schema = init_schema;
  write_blocks = write_blocks;
  write_transactions = write_transactions;
  write_outputs = write_outputs;
  write_has_output_relationships = write_has_output_relationships;
  write_inputs = write_inputs;
  write_performs = write_performs;
  write_benefits_to = write_benefits_to;
  mark_output_spent = mark_output_spent;
  create_checkpoint = create_checkpoint now;
  update_checkpoint = update_checkpoint;
  get_checkpoint = get_checkpoint;
  mark_checkpoint_complete = mark_checkpoint_complete;
  set_checkpoint_status = set_checkpoint_status now;
  lookup_outputs_batch = lookup_outputs_batch;
  lookup_block_hash = lookup_block_hash;
  rollback_block = rollback_block;
  get_max_block_height = get_max_block_height;
  check_block_complete = check_block_complete;
  write_blocks_fast = write_blocks_fast;
  write_transactions_fast = write_transactions_fast;
  write_outputs_fast = write_outputs_fast;
  write_has_output_relationships_fast = write_has_output_relationships;
  write_inputs_fast = write_inputs_fast;
  begin_transaction = begin_transaction;
  commit_transaction = commit_transaction;
  rollback_transaction = rollback_transaction;
}
