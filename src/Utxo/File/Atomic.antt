-- ===== src/Utxo/File/Atomic.antt =====
-- `save_to_file`: the bytes that a finished save leaves, and what an unfinished one leaves.
use bitcoin_chain_graph.Common.{
  ℕ, zero, suc, ◌+◌, ◌≤◌, ◌<◌, ◌≡◌, refl, sym, ap, ◌∙◌, Bool, true, false, List, [], ◌∷◌, ◌++◌,
  Option, none, some, length, drop, arith, append_assoc, append-nil, length-append,
  take-length_append, drop-length_append, if◌then◌else◌,
}
use bitcoin_chain_graph.Utxo.Key.{Bytes}
use bitcoin_chain_graph.Utxo.Lru.{LruCrate}
use bitcoin_chain_graph.Utxo.Lru.Entries.{Entry}
use bitcoin_chain_graph.Utxo.Cache.{UtxoCache, sum_shards, cache_len}
use bitcoin_chain_graph.Utxo.File.{
  Crc32, entry_chunks, write_all, body, header, all_entries, file_contents, hash_entries, Disk,
  DiskOp, create, sync_all, rename, write, write_at, overwrite, disk_op, run_ops, write_ops,
  entries_ops, save_ops, save_to_file, cache_file_magic, cache_file_version,
}
use bitcoin_chain_graph.Utxo.File.LittleEndian.{to_le_bytes, length-to_le_bytes}

-- The operations that touch the temporary file alone.
unfoldable Edits : List DiskOp → Type 0
Edits [] = Unit
Edits (rename ∷ ops) = ⊥
Edits (create ∷ ops) = Edits ops
Edits (sync_all ∷ ops) = Edits ops
Edits (write chunk ∷ ops) = Edits ops
Edits (write_at offset chunk ∷ ops) = Edits ops

Edits-append : (ops more : List DiskOp) → Edits ops → Edits more → Edits (ops ++ more)
unfolding Edits
Edits-append [] more h g = g
Edits-append (rename ∷ ops) more h g = absurd h
Edits-append (create ∷ ops) more h g = Edits-append ops more h g
Edits-append (sync_all ∷ ops) more h g = Edits-append ops more h g
Edits-append (write chunk ∷ ops) more h g = Edits-append ops more h g
Edits-append (write_at offset chunk ∷ ops) more h g = Edits-append ops more h g

write_ops-Edits : (chunks : List Bytes) → Edits (write_ops chunks)
unfolding Edits write_ops
write_ops-Edits [] = tt
write_ops-Edits (chunk ∷ chunks) = write_ops-Edits chunks

entries_ops-Edits : (entries : List Entry) → Edits (entries_ops entries)
unfolding Edits entries_ops
entries_ops-Edits [] = tt
entries_ops-Edits (e ∷ entries) =
    Edits-append (write_ops (entry_chunks e)) (entries_ops entries)
      (write_ops-Edits (entry_chunks e)) (entries_ops-Edits entries)

-- Every operation succeeds.
unfoldable run_all : List DiskOp → Disk → Disk
run_all [] d = d
run_all (o ∷ ops) d = run_all ops (disk_op o d)

run_all-append :
    (ops more : List DiskOp) (d : Disk) → run_all (ops ++ more) d ≡ run_all more (run_all ops d)
unfolding run_all
run_all-append [] more d = refl
run_all-append (o ∷ ops) more d = run_all-append ops more (disk_op o d)

edit-final :
    (o : DiskOp) (ops : List DiskOp) (d : Disk)
    → Edits (o ∷ ops)
    → ((disk_op o d).final ≡ d.final) × Edits ops
unfolding Edits disk_op
edit-final create ops d h = (refl, h)
edit-final sync_all ops d h = (refl, h)
edit-final rename ops d h = absurd h
edit-final (write chunk) ops d h = (refl, h)
edit-final (write_at offset chunk) ops d h = (refl, h)

run_ops-short :
    (ops : List DiskOp) (budget : ℕ) (d : Disk)
    → Edits ops
    → budget < length (ops ++ rename ∷ [])
    → ((run_ops budget (ops ++ rename ∷ []) d).0.final ≡ d.final)
      × ((run_ops budget (ops ++ rename ∷ []) d).1 ≡ false)
unfolding run_ops
run_ops-short [] zero d h lt = (refl, refl)
run_ops-short [] (suc budget) d h lt = absurd (omega arith)
run_ops-short (o ∷ ops) zero d h lt = (refl, refl)
run_ops-short (o ∷ ops) (suc budget) d h lt =
    let (kept, rest) = edit-final o ops d h in
    let (final, failed) = run_ops-short ops budget (disk_op o d) rest (omega arith) in
    (final ∙ kept, failed)

run_ops-full :
    (ops : List DiskOp) (budget : ℕ) (d : Disk)
    → length ops ≤ budget
    → run_ops budget ops d ≡ (run_all ops d, true)
unfolding run_ops run_all
run_ops-full [] budget d le = refl
run_ops-full (o ∷ ops) zero d le = absurd (omega arith)
run_ops-full (o ∷ ops) (suc budget) d le = run_ops-full ops budget (disk_op o d) (omega arith)

abbrev with_tmp : Disk → Bytes → Disk
with_tmp d bs = record d { tmp = some bs }

run_all-write_ops :
    (chunks : List Bytes) (d : Disk) (bs : Bytes)
    → run_all (write_ops chunks) (with_tmp d bs) ≡ with_tmp d (bs ++ write_all chunks)
unfolding run_all write_ops write_all disk_op
run_all-write_ops [] d bs = ap (with_tmp d) (sym (append-nil bs))
run_all-write_ops (chunk ∷ chunks) d bs =
    run_all-write_ops chunks d (bs ++ chunk)
    ∙ ap (with_tmp d) (append_assoc bs chunk (write_all chunks))

run_all-entries_ops :
    (entries : List Entry) (d : Disk) (bs : Bytes)
    → run_all (entries_ops entries) (with_tmp d bs) ≡ with_tmp d (bs ++ body entries)
unfolding run_all entries_ops body
run_all-entries_ops [] d bs = ap (with_tmp d) (sym (append-nil bs))
run_all-entries_ops (e ∷ entries) d bs =
    run_all-append (write_ops (entry_chunks e)) (entries_ops entries) (with_tmp d bs)
    ∙ ap (run_all (entries_ops entries)) (run_all-write_ops (entry_chunks e) d bs)
    ∙ run_all-entries_ops entries d (bs ++ write_all (entry_chunks e))
    ∙ ap (with_tmp d) (append_assoc bs (write_all (entry_chunks e)) (body entries))

overwrite-append :
    (front old chunk rest : Bytes)
    → length old ≡ length chunk
    → overwrite (length front) chunk (front ++ (old ++ rest)) ≡ front ++ (chunk ++ rest)
unfolding overwrite
overwrite-append front old chunk rest e =
    let dropped : drop (length front + length chunk) (front ++ (old ++ rest)) ≡ rest =
      rw (← e, ← length-append front old, ← append_assoc front old rest)
        (drop-length_append (front ++ old) rest) in
    rw (take-length_append front (old ++ rest), dropped)

header_split :
    (a b c h z rest : Bytes)
    → write_all (a ∷ b ∷ c ∷ h ∷ z ∷ []) ++ rest ≡ (a ++ (b ++ (c ++ h))) ++ (z ++ rest)
unfolding write_all
header_split a b c h z rest = simp (append_assoc, append-nil)

header_join :
    (a b c h z rest : Bytes)
    → (a ++ (b ++ (c ++ h))) ++ (z ++ rest) ≡ (a ++ (b ++ (c ++ (h ++ z)))) ++ rest
header_join a b c h z rest = simp append_assoc

-- The result of a save, from what its operations did.
saved : ℕ → Disk × Bool → Disk × Option ℕ
saved n (d, done) = (d, if done then some n else none)

module _ (L : LruCrate) where
  open L use {LruCache, len, iter, len_lem}

  pub all_entries-length :
      (shards : List LruCache) → length (all_entries L shards) ≡ sum_shards L len shards
  unfolding all_entries sum_shards
  all_entries-length [] = refl
  all_entries-length (s ∷ shards) =
      omega
        (arith, length-append (iter s) (all_entries L shards), len_lem s, all_entries-length shards)

module _ (C : Crc32) (L : LruCrate) (c : UtxoCache L.LruCache) (height : ℕ) where
  open C use {new as new_hasher, finalize}
  open L use {LruCache, len, iter, len_lem}

  crc_bytes : Bytes
  crc_bytes = to_le_bytes 4 (finalize (hash_entries C new_hasher (all_entries L c.shards)))

  head_chunks : List Bytes
  head_chunks =
      cache_file_magic
      ∷ to_le_bytes 4 cache_file_version
      ∷ to_le_bytes 8 (sum_shards L len c.shards)
      ∷ to_le_bytes 4 height
      ∷ to_le_bytes 4 0
      ∷ []

  -- Everything up to the rename.
  edits : List DiskOp
  unfolding head_chunks crc_bytes
  edits =
      create
      ∷ (write_ops head_chunks
          ++ (entries_ops (all_entries L c.shards) ++ (write_at 20 crc_bytes ∷ sync_all ∷ [])))

  edits-Edits : Edits edits
  unfolding edits Edits
  edits-Edits = Edits-append (write_ops head_chunks) _ (write_ops-Edits head_chunks) (
      Edits-append (entries_ops (all_entries L c.shards)) _
        (entries_ops-Edits (all_entries L c.shards)) tt)

  save_ops-edits : save_ops C L c height ≡ edits ++ rename ∷ []
  unfolding save_ops edits head_chunks crc_bytes
  save_ops-edits = rw (
    append_assoc (write_ops head_chunks)
        (entries_ops (all_entries L c.shards) ++ (write_at 20 crc_bytes ∷ sync_all ∷ []))
        (rename ∷ []),
    append_assoc (entries_ops (all_entries L c.shards)) (write_at 20 crc_bytes ∷ sync_all ∷ [])
        (rename ∷ []),
  )

  patched :
      overwrite 20 crc_bytes (write_all head_chunks ++ body (all_entries L c.shards))
      ≡ file_contents C L c height
  unfolding head_chunks crc_bytes file_contents header
  patched =
      let version = to_le_bytes 4 cache_file_version in
      let count = to_le_bytes 8 (sum_shards L len c.shards) in
      let at = to_le_bytes 4 height in
      let entries = body (all_entries L c.shards) in
      let twenty : length (cache_file_magic ++ (version ++ (count ++ at))) ≡ 20 = omega (
        arith,
        length-append version (count ++ at),
        length-append count at,
        length-to_le_bytes 4 cache_file_version,
        length-to_le_bytes 8 (sum_shards L len c.shards),
        length-to_le_bytes 4 height,
      ) in
      ap (overwrite 20 crc_bytes)
        (header_split cache_file_magic version count at (to_le_bytes 4 0) entries)
      ∙ rw (← twenty) (
          overwrite-append (cache_file_magic ++ (version ++ (count ++ at))) (to_le_bytes 4 0)
            crc_bytes entries (length-to_le_bytes 4 0 ∙ sym (length-to_le_bytes 4 _)))
      ∙ header_join cache_file_magic version count at crc_bytes entries

  edits-create :
      (d : Disk)
      → run_all edits d
        ≡ run_all
            (write_ops head_chunks
              ++ (entries_ops (all_entries L c.shards) ++ (write_at 20 crc_bytes ∷ sync_all ∷ [])))
            (with_tmp d [])
  unfolding edits run_all disk_op
  edits-create d = refl

  edits-tmp : (d : Disk) → run_all edits d ≡ with_tmp d (file_contents C L c height)
  edits-tmp d =
      let entries = all_entries L c.shards in
      let tail = write_at 20 crc_bytes ∷ sync_all ∷ [] in
      edits-create d
      ∙ run_all-append (write_ops head_chunks) (entries_ops entries ++ tail) (with_tmp d [])
      ∙ ap (run_all (entries_ops entries ++ tail)) (run_all-write_ops head_chunks d [])
      ∙ run_all-append (entries_ops entries) tail (with_tmp d (write_all head_chunks))
      ∙ ap (run_all tail) (run_all-entries_ops entries d (write_all head_chunks))
      ∙ unfold run_all disk_op in ap (with_tmp d) patched

  save_to_file-saved :
      (d : Disk) (budget : ℕ)
      → save_to_file C L budget c height d
        ≡ saved (length (all_entries L c.shards)) (run_ops budget (save_ops C L c height) d)
  unfolding save_to_file saved
  save_to_file-saved d budget = refl

  -- A save of which fewer operations succeed than it has, by an error or a crash anywhere before
  -- its end, returns no count and leaves the cache file as it was.
  pub save_to_file-fault :
      (d : Disk) (budget : ℕ)
      → budget < length (save_ops C L c height)
      → ((save_to_file C L budget c height d).0.final ≡ d.final)
        × ((save_to_file C L budget c height d).1 ≡ none)
  unfolding saved
  save_to_file-fault d budget lt =
      let (kept, failed) = run_ops-short edits budget d edits-Edits (rw save_ops-edits at lt) in
      rw (save_to_file-saved d budget, save_ops-edits, failed) (kept, refl)

  -- A save whose operations all succeed replaces the cache file by the complete new contents, with
  -- the checksum in place, removes the temporary file, and returns the number of entries.
  pub save_to_file-done :
      (d : Disk) (budget : ℕ)
      → length (save_ops C L c height) ≤ budget
      → save_to_file C L budget c height d
        ≡ (record { final = some (file_contents C L c height); tmp = none }, some (cache_len L c))
  unfolding saved cache_len
  save_to_file-done d budget le =
      let ran = run_ops-full (save_ops C L c height) budget d le in
      let all =
        ap (λ ops. run_all ops d) save_ops-edits
        ∙ run_all-append edits (rename ∷ []) d
        ∙ ap (run_all (rename ∷ [])) (edits-tmp d) in
      save_to_file-saved d budget
      ∙ ap (saved (length (all_entries L c.shards))) (ran ∙ ap (λ e. (e, true)) all)
      ∙ unfold run_all disk_op in
        ap (λ n. (record { final = some (file_contents C L c height); tmp = none }, some n))
          (all_entries-length L c.shards)
