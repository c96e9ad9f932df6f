-- ===== src/Utxo/File/CutOff.antt =====
-- `load_from_file` (src/domain/utxo/cache.rs) on the file of a saved cache that was cut off.
use bitcoin_chain_graph.Common.{
  ℕ, zero, suc, ◌<◌, ◌^◌, ◌≡◌, refl, sym, ap, ◌∙◌, List, [], ◌∷◌, ◌++◌, some, length, take, drop,
  replicate, arith, length-append, inl, inr, All, append_assoc,
}
use bitcoin_chain_graph.Common.Result.{ok, err, Result-cases, bind-ok, ok-inj}
use bitcoin_chain_graph.Utxo.Key.{Bytes, num_shards}
use bitcoin_chain_graph.Utxo.Lru.{LruCrate}
use bitcoin_chain_graph.Utxo.Lru.Entries.{Entry}
use bitcoin_chain_graph.Utxo.Cache.{UtxoCache, cache_len, sum_shards}
use bitcoin_chain_graph.Utxo.File.{
  Crc32, IoError, body, header, all_entries, file_contents, hash_entries, cache_file_magic,
  cache_file_version,
}
use bitcoin_chain_graph.Utxo.File.LittleEndian.{
  from_le_bytes, to_le_bytes, length-to_le_bytes, from_le_bytes-to_le_bytes,
}
use bitcoin_chain_graph.Utxo.File.Errors.{passed}
use bitcoin_chain_graph.Utxo.File.Reading.{read_entries-body}
use bitcoin_chain_graph.Utxo.File.Atomic.{all_entries-length}
use bitcoin_chain_graph.Utxo.File.EntryTrip.{EntryOk}
use bitcoin_chain_graph.Utxo.File.Load.{
  read_exact, read_entries, read_body, read_version, read_file, load_from_file,
}
use bitcoin_chain_graph.Utxo.File.Longer.{next_part, read_entries-more}

nothing_behind : (xs q : Bytes) → xs ++ q ≡ [] → length q ≡ 0
nothing_behind xs q e = omega (arith, length-append xs q, ap length e)

take-drop : (n : ℕ) (bs : Bytes) → take n bs ++ drop n bs ≡ bs
take-drop zero bs = refl
take-drop (suc n) [] = refl
take-drop (suc n) (b ∷ bs) = ap (λ l. b ∷ l) (take-drop n bs)

length-take_drop : (n : ℕ) (bs : Bytes) → n < length bs → 0 < length (drop n bs)
length-take_drop zero bs short = short
length-take_drop (suc n) [] short = absurd (omega arith)
length-take_drop (suc n) (b ∷ bs) short = length-take_drop n bs (omega arith)

five_parts :
    (a b c d z rest : Bytes)
    → (a ++ (b ++ (c ++ (d ++ z)))) ++ rest ≡ a ++ (b ++ (c ++ (d ++ (z ++ rest))))
five_parts a b c d z rest = simp append_assoc

module _ (C : Crc32) (L : LruCrate) where
  open C use {new as new_hasher}

  -- What is read from the front of a file whose header counts all its entries is the whole file.
  read_file-whole :
      (b q : Bytes) (entries : List Entry) (height sum : ℕ) (per_shard : List (List Entry))
      → All EntryOk entries
      → length entries < 2 ^ 64
      → b ++ q
        ≡ cache_file_magic
          ++ (to_le_bytes 4 cache_file_version
              ++ (to_le_bytes 8 (length entries)
                  ++ (to_le_bytes 4 height ++ (to_le_bytes 4 sum ++ body entries))))
      → read_file C b ≡ ok per_shard
      → length q ≡ 0
  unfolding read_file read_version read_body
  read_file-whole b q entries height sum per_shard typed small whole e =
      let ((magic, f1), c1, e1) = bind-ok (read_exact 4 b) _ per_shard e in
      let e2 = passed _ _ _ per_shard e1 in
      let w1 = next_part 4 b q cache_file_magic _ magic f1 whole refl c1 in
      let ((version, f2), c2, e3) = bind-ok (read_exact 4 f1) _ per_shard e2.1 in
      let e4 = passed _ _ _ per_shard e3 in
      let w2 = next_part 4 f1 q _ _ version f2 w1.1 (length-to_le_bytes 4 _) c2 in
      let ((count, f3), c3, e5) = bind-ok (read_exact 8 f2) _ per_shard e4.1 in
      let w3 = next_part 8 f2 q _ _ count f3 w2.1 (length-to_le_bytes 8 _) c3 in
      let ((at, f4), c4, e6) = bind-ok (read_exact 4 f3) _ per_shard e5 in
      let w4 = next_part 4 f3 q _ _ at f4 w3.1 (length-to_le_bytes 4 _) c4 in
      let ((crc, f5), c5, e7) = bind-ok (read_exact 4 f4) _ per_shard e6 in
      let w5 = next_part 4 f4 q _ _ crc f5 w4.1 (length-to_le_bytes 4 _) c5 in
      let start = replicate num_shards [] in
      let ((ps, r), c6, e8) =
        bind-ok (read_entries C (from_le_bytes count) (f5, new_hasher) start) _ per_shard e7 in
      let counted : from_le_bytes count ≡ length entries =
        ap from_le_bytes w3.0 ∙ from_le_bytes-to_le_bytes 8 (length entries) small in
      let longer = read_entries-more C q (from_le_bytes count) (f5, new_hasher) start (ps, r) c6 in
      let same =
        sym longer
        ∙ ap (λ n. read_entries C n (f5 ++ q, new_hasher) start) counted
        ∙ ap (λ bs. read_entries C (length entries) (bs, new_hasher) start) w5.1
        ∙ read_entries-body C L entries start typed in
      nothing_behind r.0 q (ap (λ p. p.1.0) (ok-inj _ _ same))

  -- The file of a saved cache, whose entries are in range for their types and fewer than 2^64, is
  -- refused when it is cut off, at whichever byte, and the cache that it was to be loaded into stays
  -- as it was.
  pub load_from_file-cut_off :
      (c fresh : UtxoCache L.LruCache) (height n : ℕ)
      → All EntryOk (all_entries L c.shards)
      → cache_len L c < 2 ^ 64
      → n < length (file_contents C L c height)
      → (e : IoError) × (load_from_file C L (some (take n (file_contents C L c height))) fresh
          ≡ (fresh, err e))
  unfolding load_from_file file_contents header cache_len
  load_from_file-cut_off c fresh height n typed small short =
      let file = file_contents C L c height in
      let entries = all_entries L c.shards in
      let count = all_entries-length L c.shards in
      let sum = C.finalize (hash_entries C C.new entries) in
      let layout =
        five_parts cache_file_magic (to_le_bytes 4 cache_file_version)
          (to_le_bytes 8 (sum_shards L L.len c.shards)) (to_le_bytes 4 height) (to_le_bytes 4 sum)
          (body entries)
        ∙ ap
            (λ m.
              cache_file_magic
              ++ (to_le_bytes 4 cache_file_version
                  ++ (to_le_bytes 8 m
                      ++ (to_le_bytes 4 height ++ (to_le_bytes 4 sum ++ body entries)))))
            (sym count) in
      elim (Result-cases (read_file C (take n file))) [
        | inr (e, failed) ↦ (e, rw (failed, load_from_file) refl)
        | inl (per_shard, read) ↦
            let none_left =
              read_file-whole (take n file) (drop n file) entries height sum per_shard typed
                (rw count small) (take-drop n file ∙ layout) read in
            absurd (omega (arith, none_left, length-take_drop n file short))
      ]
