-- ===== src/Utxo/File/Errors.antt =====
-- `load_from_file` on any file that it accepts.
use bitcoin_chain_graph.Common.{
  ℕ, zero, suc, ◌+◌, ◌<◌, ◌≡◌, refl, sym, ap, ◌∙◌, Bool, true, false, List, [], ◌∷◌, ◌++◌, some,
  length, get_or, set, take, drop, replicate, arith, length-append, length-set, length-replicate,
  inl, inr, Bool-cases, if◌then◌else◌, ltb, ◌==◌, ==_iff,
}
use bitcoin_chain_graph.Common.Result.{Result, ok, err, Result-cases, bind-ok, ok-inj, err-ok}
use bitcoin_chain_graph.Utxo.Key.{Bytes, num_shards, shard_index, shard_index-lt}
use bitcoin_chain_graph.Utxo.Lru.{LruCrate}
use bitcoin_chain_graph.Utxo.Lru.Entries.{Entry}
use bitcoin_chain_graph.Utxo.Cache.{UtxoCache}
use bitcoin_chain_graph.Utxo.File.{
  Crc32, IoError, cache_file_magic, cache_file_version, crc_mismatch,
}
use bitcoin_chain_graph.Utxo.File.LittleEndian.{from_le_bytes}
use bitcoin_chain_graph.Utxo.File.Load.{
  Reader, bytes_eq, read_exact, read_entry, push_entry, read_entries, read_body, read_version,
  read_file, count_entries, load_from_file,
}

count_entries-set :
    (per_shard : List (List Entry)) (i : ℕ) (entries : List Entry)
    → i < length per_shard
    → count_entries (set per_shard i entries) + length (get_or per_shard i [])
      ≡ count_entries per_shard + length entries
unfolding count_entries
count_entries-set [] i entries lt = absurd (omega arith)
count_entries-set (l ∷ ls) zero entries lt = omega arith
count_entries-set (l ∷ ls) (suc i) entries lt =
    omega (arith, count_entries-set ls i entries (omega arith))

count_entries-push :
    (e : Entry) (per_shard : List (List Entry))
    → length per_shard ≡ num_shards
    → (count_entries (push_entry e per_shard) ≡ suc (count_entries per_shard))
      × (length (push_entry e per_shard) ≡ num_shards)
unfolding push_entry
count_entries-push e per_shard sixteen =
    let i = shard_index e.0 in
    let old = get_or per_shard i [] in
    (
      omega (
        arith,
        count_entries-set per_shard i (old ++ e ∷ []) (omega (arith, shard_index-lt e.0)),
        length-append old (e ∷ []),
      ),
      length-set per_shard i _ ∙ sixteen,
    )

count_entries-replicate : (n : ℕ) → count_entries (replicate n []) ≡ 0
unfolding count_entries
count_entries-replicate zero = refl
count_entries-replicate (suc n) = omega (arith, count_entries-replicate n)

-- A test that guards an error, in a chain that succeeds.
pub passed :
    (b : Bool) (r : Result IoError (List (List Entry))) (e : IoError) (ps : List (List Entry))
    → (if b then r else err e) ≡ ok ps
    → (b ≡ true) × (r ≡ ok ps)
passed true r e ps h = (refl, h)
passed false r e ps h = absurd (err-ok e ps h)

from_nothing : (n m : ℕ) → m ≡ 0 → n + m ≡ n
from_nothing n m h = omega arith

checked :
    (b : Bool) (ps qs : List (List Entry))
    → (if b then ok ps else err crc_mismatch) ≡ ok qs
    → ps ≡ qs
checked b ps qs h = ok-inj ps qs (passed b (ok ps) crc_mismatch qs h).1

module _ (C : Crc32) where
  open C use {new as new_hasher, finalize}

  read_entries-count :
      (n : ℕ) (r r' : Reader C) (per_shard per_shard' : List (List Entry))
      → length per_shard ≡ num_shards
      → read_entries C n r per_shard ≡ ok (per_shard', r')
      → count_entries per_shard' ≡ n + count_entries per_shard
  unfolding read_entries
  read_entries-count zero r r' per_shard per_shard' sixteen e =
      omega (arith, ap count_entries (ap (λ p. p.0) (ok-inj _ _ e)))
  read_entries-count (suc n) r r' per_shard per_shard' sixteen e =
      elim (Result-cases (read_entry C r)) [
        | inl ((entry, r1), read) ↦
            let (counted, kept) = count_entries-push entry per_shard sixteen in
            omega (
              arith,
              read_entries-count n r1 r' (push_entry entry per_shard) per_shard' kept
                  (rw (read_entries, read) at e),
              counted,
            )
        | inr (bad, failed) ↦ absurd (err-ok bad _ (rw (read_entries, failed) at e))
      ]

  read_exact-ok :
      (n : ℕ) (bs chunk rest : Bytes)
      → read_exact n bs ≡ ok (chunk, rest)
      → (chunk ≡ take n bs) × (rest ≡ drop n bs)
  unfolding read_exact
  read_exact-ok n bs chunk rest e = elim (Bool-cases (ltb (length bs) n)) [
    | inl short ↦ absurd (err-ok _ _ (rw short at e))
    | inr fits ↦
        let same = ok-inj _ _ (rw fits at e) in (sym (ap (λ p. p.0) same), sym (ap (λ p. p.1) same))
  ]

  read_body-ok :
      (file : Bytes) (per_shard : List (List Entry))
      → read_body C file ≡ ok per_shard
      → count_entries per_shard ≡ from_le_bytes (take 8 file)
  unfolding read_body
  read_body-ok file per_shard e =
      let ((count, f1), c1, e1) = bind-ok (read_exact 8 file) _ per_shard e in
      let ((height, f2), c2, e2) = bind-ok (read_exact 4 f1) _ per_shard e1 in
      let ((crc, f3), c3, e3) = bind-ok (read_exact 4 f2) _ per_shard e2 in
      let ((ps, r), c4, e4) =
        bind-ok (read_entries C (from_le_bytes count) (f3, new_hasher) (replicate num_shards [])) _
          per_shard e3 in
      sym (ap count_entries (checked (finalize r.1 == from_le_bytes crc) ps per_shard e4))
      ∙ read_entries-count (from_le_bytes count) (f3, new_hasher) r (replicate num_shards []) ps
          (length-replicate {A = List Entry} num_shards []) c4
      ∙ from_nothing (from_le_bytes count) (count_entries (replicate num_shards []))
          (count_entries-replicate num_shards)
      ∙ ap from_le_bytes (read_exact-ok 8 file count f1 c1).0

  -- A successful read has the magic bytes, the version, and the entries that the header counts.
  read_file-ok :
      (file : Bytes) (per_shard : List (List Entry))
      → read_file C file ≡ ok per_shard
      → (bytes_eq (take 4 file) cache_file_magic ≡ true)
        × (from_le_bytes (take 4 (drop 4 file)) ≡ cache_file_version)
        × (count_entries per_shard ≡ from_le_bytes (take 8 (drop 4 (drop 4 file))))
  unfolding read_file read_version
  read_file-ok file per_shard e =
      let ((magic, f1), c1, e1) = bind-ok (read_exact 4 file) _ per_shard e in
      let (is_magic, e2) = passed (bytes_eq magic cache_file_magic) _ _ per_shard e1 in
      let ((version, f2), c2, e3) = bind-ok (read_exact 4 f1) _ per_shard e2 in
      let (is_version, e4) =
        passed (from_le_bytes version == cache_file_version) _ _ per_shard e3 in
      let (t1, d1) = read_exact-ok 4 file magic f1 c1 in
      let (t2, d2) = read_exact-ok 4 f1 version f2 c2 in
      (
        sym (ap (λ m. bytes_eq m cache_file_magic) t1) ∙ is_magic,
        sym (ap from_le_bytes (t2 ∙ ap (take 4) d1))
            ∙ (==_iff (from_le_bytes version) 1).0 is_version,
        read_body-ok f2 per_shard e4 ∙ ap (λ l. from_le_bytes (take 8 l)) (d2 ∙ ap (drop 4) d1),
      )

module _ (C : Crc32) (L : LruCrate) (c : UtxoCache L.LruCache) where
  -- A file that loads starts with the magic bytes and the version, and the number of entries that
  -- is returned is the one of its header.
  pub load_from_file-ok :
      (file : Bytes) (n : ℕ)
      → (load_from_file C L (some file) c).1 ≡ ok n
      → (bytes_eq (take 4 file) cache_file_magic ≡ true)
        × (from_le_bytes (take 4 (drop 4 file)) ≡ cache_file_version)
        × (n ≡ from_le_bytes (take 8 (drop 4 (drop 4 file))))
  unfolding load_from_file
  load_from_file-ok file n h = elim (Result-cases (read_file C file)) [
    | inl (per_shard, read) ↦
        let (is_magic, is_version, counted) = read_file-ok C file per_shard read in
        (is_magic, is_version, sym (ok-inj _ _ (rw (load_from_file, read) at h)) ∙ counted)
    | inr (bad, failed) ↦ absurd (err-ok bad n (rw (load_from_file, failed) at h))
  ]
