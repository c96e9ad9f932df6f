-- ===== src/Utxo/File/EntryTrip.antt =====
-- One entry of the cache file, written and read back.
use bitcoin_chain_graph.Common.{
  ℕ, ◌^◌, ◌<◌, ◌≡◌, refl, sym, ap, ◌∙◌, true, false, List, [], ◌∷◌, ◌++◌, Option, none, some,
  length, All, ◌%◌, arith, ltb, append_assoc, take-length_append, drop-length_append, length-append,
}
use bitcoin_chain_graph.Common.Result.{ok}
use bitcoin_chain_graph.Utxo.Key.{Bytes, IsKey}
use bitcoin_chain_graph.Utxo.Output.{
  ScriptTypeTag, p2pkh, p2sh, p2wpkh, p2wsh, p2tr, p2pk, null_data, unknown,
}
use bitcoin_chain_graph.Utxo.Lru.Entries.{Entry}
use bitcoin_chain_graph.Utxo.File.{
  Crc32, tag_byte, byte_tag, address_chunks, entry_chunks, write_all, body, update_all,
  hash_entries,
}
use bitcoin_chain_graph.Utxo.File.LittleEndian.{
  to_le_bytes, from_le_bytes, is_utf8, length-to_le_bytes, from_le_bytes-to_le_bytes,
}
use bitcoin_chain_graph.Utxo.File.Load.{
  read_exact, read_hashed, read_text, read_address, read_entry, push_entry, read_entries,
}

-- An address is UTF-8, and its length fits the 16 bits that the file has for it.
pub record AddressOk (addr : Bytes) : Type 0 where
  pub utf8 : is_utf8 addr ≡ true
  pub short : length addr < 65536

abbrev pub OptionOk : Option Bytes → Type 0
OptionOk none = Unit
OptionOk (some addr) = AddressOk addr

-- The values of the Rust types, with an address as above.
pub record EntryOk (e : Entry) : Type 0 where
  pub key : IsKey e.0
  pub output_index_u32 : e.1.output_index < 2 ^ 32
  pub amount_u64 : e.1.amount < 2 ^ 64
  pub address : OptionOk e.1.address

pub byte_tag-tag_byte : (t : ScriptTypeTag) → byte_tag (tag_byte t) ≡ t
unfolding byte_tag tag_byte
byte_tag-tag_byte p2pkh = refl
byte_tag-tag_byte p2sh = refl
byte_tag-tag_byte p2wpkh = refl
byte_tag-tag_byte p2wsh = refl
byte_tag-tag_byte p2tr = refl
byte_tag-tag_byte p2pk = refl
byte_tag-tag_byte null_data = refl
byte_tag-tag_byte unknown = refl

-- The chunks, with what follows them in the file.
unfoldable pub write_onto : List Bytes → Bytes → Bytes
write_onto [] rest = rest
write_onto (chunk ∷ chunks) rest = chunk ++ write_onto chunks rest

pub write_all-onto :
    (chunks : List Bytes) (rest : Bytes) → write_all chunks ++ rest ≡ write_onto chunks rest
unfolding write_all write_onto
write_all-onto [] rest = refl
write_all-onto (chunk ∷ chunks) rest =
    append_assoc chunk (write_all chunks) rest ∙ ap (◌++◌ chunk) (write_all-onto chunks rest)

pub read_exact-append :
    (n : ℕ) (chunk rest : Bytes)
    → length chunk ≡ n
    → read_exact n (chunk ++ rest) ≡ ok (chunk, rest)
unfolding read_exact
read_exact-append n chunk rest e =
    let fits : ltb (length (chunk ++ rest)) (length chunk) ≡ false =
      ground (arith, length-append chunk rest) in
    rw (← e, fits, take-length_append chunk rest, drop-length_append chunk rest)

-- Every entry goes, in order, to the end of its shard's list.
unfoldable pub push_entries : List Entry → List (List Entry) → List (List Entry)
push_entries [] per_shard = per_shard
push_entries (e ∷ entries) per_shard = push_entries entries (push_entry e per_shard)

module _ (C : Crc32) where
  open C use {Hasher, update}

  read_hashed-append :
      (n : ℕ) (chunk rest : Bytes) (h : Hasher)
      → length chunk ≡ n
      → read_hashed C n (chunk ++ rest, h) ≡ ok (chunk, (rest, update h chunk))
  unfolding read_hashed
  read_hashed-append n chunk rest h e = rw (read_exact-append n chunk rest e)

  read_address_lem :
      (address : Option Bytes) (rest : Bytes) (h : Hasher)
      → OptionOk address
      → read_address C (write_onto (address_chunks address) rest, h)
        ≡ ok (address, (rest, update_all C h (address_chunks address)))
  unfolding read_address read_text address_chunks write_onto update_all
  read_address_lem none rest h valid = rw (read_hashed-append 1 (0 ∷ []) rest h refl)
  read_address_lem (some addr) rest h valid =
      let len = to_le_bytes 2 (length addr % 65536) in
      let small : from_le_bytes len ≡ length addr =
        omega (arith, from_le_bytes-to_le_bytes 2 (length addr % 65536), valid.short) in
      rw (
        read_hashed-append 1 (1 ∷ []) (len ++ (addr ++ rest)) h refl,
        read_hashed-append 2 len (addr ++ rest) (update h (1 ∷ [])) (length-to_le_bytes 2 _),
        read_hashed-append (from_le_bytes len) addr rest (update (update h (1 ∷ [])) len)
            (sym small),
        valid.utf8,
      )

  pub read_entry_lem :
      (e : Entry) (rest : Bytes) (h : Hasher)
      → EntryOk e
      → read_entry C (write_onto (entry_chunks e) rest, h)
        ≡ ok (e, (rest, update_all C h (entry_chunks e)))
  unfolding read_entry entry_chunks write_onto update_all
  read_entry_lem (key, value) rest h valid =
      let vout = to_le_bytes 4 key.vout in
      let index = to_le_bytes 4 value.output_index in
      let amount = to_le_bytes 8 value.amount in
      let tag = tag_byte value.script_type ∷ [] in
      let tail = write_onto (address_chunks value.address) rest in
      let h1 = update h key.txid in
      let h2 = update h1 vout in
      let h3 = update h2 index in
      let h4 = update h3 amount in
      rw (
        read_hashed-append 32 key.txid (vout ++ (index ++ (amount ++ (tag ++ tail)))) h
            valid.key.txid_length,
        read_hashed-append 4 vout (index ++ (amount ++ (tag ++ tail))) h1 (length-to_le_bytes 4 _),
        read_hashed-append 4 index (amount ++ (tag ++ tail)) h2 (length-to_le_bytes 4 _),
        read_hashed-append 8 amount (tag ++ tail) h3 (length-to_le_bytes 8 _),
        read_hashed-append 1 tag tail h4 refl,
        read_address_lem value.address rest (update h4 tag) valid.address,
        from_le_bytes-to_le_bytes 4 key.vout valid.key.vout_u32,
        from_le_bytes-to_le_bytes 4 value.output_index valid.output_index_u32,
        from_le_bytes-to_le_bytes 8 value.amount valid.amount_u64,
        byte_tag-tag_byte value.script_type,
      )

  pub read_entries_lem :
      (entries : List Entry) (rest : Bytes) (h : Hasher) (per_shard : List (List Entry))
      → All EntryOk entries
      → read_entries C (length entries) (body entries ++ rest, h) per_shard
        ≡ ok (push_entries entries per_shard, (rest, hash_entries C h entries))
  unfolding read_entries body hash_entries push_entries
  read_entries_lem [] rest h per_shard valid = refl
  read_entries_lem (e ∷ entries) rest h per_shard valid = rw (
    append_assoc (write_all (entry_chunks e)) (body entries) rest,
    write_all-onto (entry_chunks e) (body entries ++ rest),
    read_entries,
    read_entry_lem e (body entries ++ rest) h valid.0,
    read_entries_lem entries rest (update_all C h (entry_chunks e)) (push_entry e per_shard)
        valid.1,
  )
