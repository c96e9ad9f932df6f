-- ===== src/Utxo/File/Longer.antt =====
-- The readers of `load_from_file` (src/domain/utxo/cache.rs) on bytes with more bytes behind them.
use bitcoin_chain_graph.Common.{
  ℕ, zero, suc, ◌≡◌, refl, sym, ap, ◌∙◌, false, List, [], ◌∷◌, ◌++◌, Option, length, get_or, take,
  drop, arith, length-append, inl, inr, Bool-cases, ltb, ◌==◌, ltb-false→ge, ◌≤◌,
}
use bitcoin_chain_graph.Common.Result.{Result, ok, Result-cases, bind-ok, ok-inj, err-ok}
use bitcoin_chain_graph.Utxo.Key.{Bytes}
use bitcoin_chain_graph.Utxo.Lru.Entries.{Entry}
use bitcoin_chain_graph.Utxo.File.{Crc32, IoError}
use bitcoin_chain_graph.Utxo.File.LittleEndian.{from_le_bytes, is_utf8}
use bitcoin_chain_graph.Utxo.File.EntryTrip.{read_exact-append}
use bitcoin_chain_graph.Utxo.File.Load.{
  Reader, read_exact, read_hashed, read_text, read_address, read_entry, push_entry, read_entries,
}

append-take : (n : ℕ) (bs q : Bytes) → n ≤ length bs → take n (bs ++ q) ≡ take n bs
append-take zero bs q fits = refl
append-take (suc n) [] q fits = absurd (omega arith)
append-take (suc n) (b ∷ bs) q fits = ap (λ l. b ∷ l) (append-take n bs q (omega arith))

append-drop : (n : ℕ) (bs q : Bytes) → n ≤ length bs → drop n (bs ++ q) ≡ drop n bs ++ q
append-drop zero bs q fits = refl
append-drop (suc n) [] q fits = absurd (omega arith)
append-drop (suc n) (b ∷ bs) q fits = append-drop n bs q (omega arith)

-- What is read from some bytes is read from more bytes as well.
read_exact-more :
    (n : ℕ) (bs q chunk rest : Bytes)
    → read_exact n bs ≡ ok (chunk, rest)
    → read_exact n (bs ++ q) ≡ ok (chunk, rest ++ q)
unfolding read_exact
read_exact-more n bs q chunk rest e = elim (Bool-cases (ltb (length bs) n)) [
  | inl short ↦ absurd (err-ok _ _ (rw short at e))
  | inr fits ↦
      let same = ok-inj _ _ (rw fits at e) in
      let enough : n ≤ length bs = ltb-false→ge _ _ fits in
      let long : ltb (length (bs ++ q)) n ≡ false = ground (arith, length-append bs q) in
      rw (long, append-take n bs q enough, append-drop n bs q enough)
        (ap (λ p. ok (p.0, p.1 ++ q)) same)
]

-- The next part of bytes that are known.
pub next_part :
    (n : ℕ) (bs q part rest chunk left : Bytes)
    → bs ++ q ≡ part ++ rest
    → length part ≡ n
    → read_exact n bs ≡ ok (chunk, left)
    → (chunk ≡ part) × (left ++ q ≡ rest)
next_part n bs q part rest chunk left whole size e =
    let same = ok-inj _ _ (
      sym (read_exact-more n bs q chunk left e)
      ∙ ap (read_exact n) whole
      ∙ read_exact-append n part rest size) in
    (ap (λ p. p.0) same, ap (λ p. p.1) same)

module _ (C : Crc32) (q : Bytes) where
  open C use {Hasher, update, new as new_hasher}

  -- The bytes `q` behind what is left.
  abbrev pub more : Reader C → Reader C
  more r = (r.0 ++ q, r.1)

  abbrev pub with_more : {A : Type 0} → A × Reader C → Result IoError (A × Reader C)
  with_more p = ok (p.0, more p.1)

  read_hashed-more :
      (n : ℕ) (r : Reader C) (p : Bytes × Reader C)
      → read_hashed C n r ≡ ok p
      → read_hashed C n (more r) ≡ with_more p
  unfolding read_hashed
  read_hashed-more n r p e =
      let ((chunk, rest), got, same) = bind-ok (read_exact n r.0) _ p e in
      rw (read_exact-more n r.0 q chunk rest got) (ap with_more (ok-inj _ _ same))

  read_text-more :
      (r : Reader C) (p : Option Bytes × Reader C)
      → read_text C r ≡ ok p
      → read_text C (more r) ≡ with_more p
  unfolding read_text
  read_text-more r p e =
      let ((len, r1), c1, e1) = bind-ok (read_hashed C 2 r) _ p e in
      let ((addr, r2), c2, e2) = bind-ok (read_hashed C (from_le_bytes len) r1) _ p e1 in
      rw (read_hashed-more 2 r (len, r1) c1, read_hashed-more (from_le_bytes len) r1 (addr, r2) c2)
        (elim (Bool-cases (is_utf8 addr)) [
          | inl fine ↦ rw fine (ap with_more (ok-inj _ _ (rw fine at e2)))
          | inr bad ↦ absurd (err-ok _ _ (rw bad at e2))
        ])

  read_address-more :
      (r : Reader C) (p : Option Bytes × Reader C)
      → read_address C r ≡ ok p
      → read_address C (more r) ≡ with_more p
  unfolding read_address
  read_address-more r p e =
      let ((has_address, r1), c1, e1) = bind-ok (read_hashed C 1 r) _ p e in
      rw (read_hashed-more 1 r (has_address, r1) c1)
        (elim (Bool-cases (get_or has_address 0 0 == 1)) [
          | inl some_ ↦ rw some_ (read_text-more r1 p (rw some_ at e1))
          | inr none_ ↦ rw none_ (ap with_more (ok-inj _ _ (rw none_ at e1)))
        ])

  read_entry-more :
      (r : Reader C) (p : Entry × Reader C)
      → read_entry C r ≡ ok p
      → read_entry C (more r) ≡ with_more p
  unfolding read_entry
  read_entry-more r p e =
      let ((txid, r1), c1, e1) = bind-ok (read_hashed C 32 r) _ p e in
      let ((vout, r2), c2, e2) = bind-ok (read_hashed C 4 r1) _ p e1 in
      let ((output_index, r3), c3, e3) = bind-ok (read_hashed C 4 r2) _ p e2 in
      let ((amount, r4), c4, e4) = bind-ok (read_hashed C 8 r3) _ p e3 in
      let ((script_type, r5), c5, e5) = bind-ok (read_hashed C 1 r4) _ p e4 in
      let ((address, r6), c6, e6) = bind-ok (read_address C r5) _ p e5 in
      rw
        (
          read_hashed-more 32 r (txid, r1) c1,
          read_hashed-more 4 r1 (vout, r2) c2,
          read_hashed-more 4 r2 (output_index, r3) c3,
          read_hashed-more 8 r3 (amount, r4) c4,
          read_hashed-more 1 r4 (script_type, r5) c5,
          read_address-more r5 (address, r6) c6,
        )
        (ap with_more (ok-inj _ _ e6))

  pub read_entries-more :
      (n : ℕ) (r : Reader C) (per_shard : List (List Entry)) (p : List (List Entry) × Reader C)
      → read_entries C n r per_shard ≡ ok p
      → read_entries C n (more r) per_shard ≡ with_more p
  unfolding read_entries
  read_entries-more zero r per_shard p e = ap with_more (ok-inj _ _ e)
  read_entries-more (suc n) r per_shard p e = elim (Result-cases (read_entry C r)) [
    | inl ((entry, r1), read) ↦
        rw (read_entries, read_entry-more r (entry, r1) read)
          (read_entries-more n r1 (push_entry entry per_shard) p (rw (read_entries, read) at e))
    | inr (bad, failed) ↦ absurd (err-ok bad _ (rw (read_entries, failed) at e))
  ]
