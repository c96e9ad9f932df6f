-- ===== src/Parser/BlockIndex/Scan.antt =====
-- The scans of the block index (src/parser/block_index.rs): `get_main_chain`, `get_main_chain_up_to`,
-- `load_batch_index`, `get_block_at_height` and `get_block_by_hash`. LevelDB is the list of its keys
-- and values in the order of its iterator, or `none` when no iterator can be made; `hex::encode` and
-- `hex::decode` are parameters.
pub mod Run
use bitcoin_chain_graph.Common.{
  ℕ, suc, ◌+◌, ◌-◌, ◌%◌, ◌^◌, ◌&&◌, Bool, true, false, List, [], ◌∷◌, Option, none, some, length,
  leb, ltb, ◌==◌, ℕ_discrete, if◌then◌else◌,
}
use bitcoin_chain_graph.Common.Assoc
use bitcoin_chain_graph.Common.Sort.{sort_by_key}
use bitcoin_chain_graph.Common.Result.{Result, ok, err, ◌>>=◌}
use bitcoin_chain_graph.Utxo.Key.{Bytes}
use bitcoin_chain_graph.Utxo.File.Load.{bytes_eq}
use bitcoin_chain_graph.Parser.BlockIndex.{
  IndexError, unexpected_end, iterator_error, no_blocks_found, non_sequential, invalid_hex,
  wrong_hash_length, BlockIndexEntry, parse_block_record,
}

abbrev pub Entries : Type 0
Entries = List (Bytes × Bytes)

-- `key.len() == 33 && key[0] == b'b'`, and then the other 32 bytes.
unfoldable pub block_key : Bytes → Option Bytes
block_key [] = none
block_key (b ∷ hash) = if length hash == 32 && b == b'b' then some hash else none

abbrev pub ok_entry : Result IndexError BlockIndexEntry → Option BlockIndexEntry
ok_entry (ok entry) = some entry
ok_entry (err e) = none

module _ (hex : Bytes → Bytes) where
  -- A record that cannot be parsed is passed over.
  unfoldable pub scanned_entry : Option Bytes → Bytes → Option BlockIndexEntry
  unfolding parse_block_record
  scanned_entry none value = none
  scanned_entry (some hash) value = ok_entry (parse_block_record (hex hash) value)

  -- `while iter.advance()`.
  unfoldable pub scan : Entries → List BlockIndexEntry
  unfolding block_key scanned_entry
  scan [] = []
  scan ((key, value) ∷ entries) = elim (scanned_entry (block_key key) value) [
    | none ↦ scan entries
    | some entry ↦ entry ∷ scan entries
  ]

unfoldable pub sort_by_height : List BlockIndexEntry → List BlockIndexEntry
unfolding sort_by_key
sort_by_height = sort_by_key (λ (e : BlockIndexEntry). e.height)

-- The heights of neighbours. `+ 1` is one of `u32`.
unfoldable pub check_heights : BlockIndexEntry → List BlockIndexEntry → Result IndexError (Unit {0})
check_heights entry [] = ok tt
check_heights entry (next ∷ chain) =
    let rest = check_heights next chain in
    if next.height == (entry.height + 1) % 2 ^ 32
    then rest
    else err (non_sequential entry.height next.height)

unfoldable pub checked : List BlockIndexEntry → Result IndexError (List BlockIndexEntry)
unfolding check_heights
checked [] = err no_blocks_found
checked (entry ∷ chain) = check_heights entry chain >>= λ _. ok (entry ∷ chain)

abbrev pub with_iterator {ℓ} :
    {A : Type ℓ} → Option Entries → (Entries → Result IndexError A) → Result IndexError A
with_iterator none f = err iterator_error
with_iterator (some entries) f = f entries

-- `height <= max_height`.
unfoldable pub keep_up_to : ℕ → List BlockIndexEntry → List BlockIndexEntry
keep_up_to max_height [] = []
keep_up_to max_height (entry ∷ chain) =
    let rest = keep_up_to max_height chain in
    if leb entry.height max_height then entry ∷ rest else rest

unfoldable pub find_height : ℕ → List BlockIndexEntry → Option BlockIndexEntry
find_height height [] = none
find_height height (entry ∷ chain) =
    let rest = find_height height chain in if entry.height == height then some entry else rest

abbrev pub HeightMap : Type 0
HeightMap = List (ℕ × BlockIndexEntry)

-- The loop ends when the map has as many entries as the range has heights.
unfoldable pub batch_loop : ℕ → ℕ → ℕ → List BlockIndexEntry → HeightMap → HeightMap
batch_loop start_height end_height target_count [] batch = batch
batch_loop start_height end_height target_count (entry ∷ entries) batch =
    let batch' = Assoc.insert ℕ_discrete entry.height entry batch in
    let skipped = batch_loop start_height end_height target_count entries batch in
    let added = batch_loop start_height end_height target_count entries batch' in
    if leb start_height entry.height && leb entry.height end_height
    then (if leb target_count (length batch') then batch' else added)
    else skipped

-- `self.db.get`.
unfoldable pub get_value : Bytes → Entries → Option Bytes
unfolding bytes_eq
get_value key [] = none
get_value key ((k, value) ∷ entries) =
    let rest = get_value key entries in if bytes_eq k key then some value else rest

module _ (hex : Bytes → Bytes) (db : Option Entries) where
  unfoldable pub get_main_chain : Result IndexError (List BlockIndexEntry)
  unfolding scan sort_by_height checked
  get_main_chain = with_iterator db λ entries. checked (sort_by_height (scan hex entries))

  unfoldable pub get_main_chain_up_to : ℕ → Result IndexError (List BlockIndexEntry)
  unfolding scan sort_by_height checked keep_up_to
  get_main_chain_up_to max_height =
      with_iterator db
        λ entries. checked (sort_by_height (keep_up_to max_height (scan hex entries)))

  unfoldable pub load_batch_index : ℕ → ℕ → Result IndexError HeightMap
  unfolding scan batch_loop
  load_batch_index start_height end_height = with_iterator db λ entries. ok (
      batch_loop start_height end_height ((end_height - start_height + 1) % 2 ^ 32)
        (scan hex entries) [])

  unfoldable pub get_block_at_height : ℕ → Result IndexError (Option BlockIndexEntry)
  unfolding get_main_chain find_height
  get_block_at_height height = get_main_chain >>= λ chain. ok (find_height height chain)

-- The record of a key that is there must parse.
abbrev pub found_record : Bytes → Option Bytes → Result IndexError (Option BlockIndexEntry)
found_record hash none = ok none
found_record hash (some value) = parse_block_record hash value >>= λ entry. ok (some entry)

unfoldable pub get_block_by_hash :
    (Bytes → Option Bytes) → Bytes → Entries → Result IndexError (Option BlockIndexEntry)
unfolding get_value parse_block_record
get_block_by_hash hex_decode hash entries = elim (hex_decode hash) [
  | none ↦ err invalid_hex
  | some hash_bytes ↦
      if length hash_bytes == 32
      then found_record hash (get_value (b'b' ∷ hash_bytes) entries)
      else err (wrong_hash_length (length hash_bytes))
]
