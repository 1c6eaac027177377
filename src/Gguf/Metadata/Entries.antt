-- ===== src/Gguf/Metadata/Entries.antt =====
-- What `parse_metadata` of src/q3_gguf.c guarantees: as many entries as the header says, each value
-- inside the file, and an alignment that is a positive `uint32_t`.
use sera_c.Gguf.Metadata.Header.{
  HasEntries, IsMapping, Reads, SameHeader, SameHeader_kv, SameHeader_refl, Reads-IsValid,
  SameHeader_trans, Extends-Reads, SameHeader-Reads, SameHeader_back, SameHeader-IsMapping,
}
use native.Mathlib.Nat.{add-zero, zero-add}
use sera_c.Common.{
  ℕ, zero, suc, ◌+◌, ◌≤◌, ◌<◌, ◌≡◌, refl, [], ◌∷◌, ◌++◌, All-append, length-append, arith, u32_max,
  Bool, ok, err, Post, Post-bind, Post_map,
}
use sera_c.Gguf.Cursor.{Cursor, R, cursor_u32, cursor_string}
use sera_c.Gguf.Cursor.Bounds.{
  IsValid, Extends, Extends-trans, Extends-IsValid, TookWord, TookString, cursor_u32-TookWord,
  cursor_string-TookString,
}
use sera_c.Gguf.Cursor.Words.{cursor_u32-le}
use sera_c.Gguf.File.{Kv, Gguf, cursor_at}
use sera_c.Gguf.Metadata.{nonzero_or, read_kv, entry_alignment, kv_step, kv_loop, parse_metadata}
use sera_c.Gguf.Value.{skip_value}
use sera_c.Gguf.Value.Bounds.{Passes, skip_value-Passes}

abbrev IsAlignment : ℕ → Type 0
IsAlignment a = (1 ≤ a) × (a ≤ u32_max)

nonzero_or-IsAlignment :
    (old : ℕ) (r : R (ℕ × Cursor))
    → IsAlignment old
    → Post r (λ x. x.0 ≤ u32_max)
    → IsAlignment (nonzero_or old r)
unfolding nonzero_or
nonzero_or-IsAlignment old (ok (a, tmp)) h p = ground arith
nonzero_or-IsAlignment old (err e) h p = h

entry_alignment-IsAlignment :
    (m : Gguf) (kv : Kv)
    → IsMapping m
    → kv.value_pos ≤ m.size
    → IsAlignment m.alignment
    → IsAlignment (entry_alignment m kv)
unfolding entry_alignment cursor_at
entry_alignment-IsAlignment m kv f pos h =
    let c = cursor_at m kv.value_pos in
    let v : IsValid c = record { mapped = f.mapped; fits = omega arith; inside = pos } in
    ground (arith, nonzero_or-IsAlignment m.alignment (cursor_u32 c) h (cursor_u32-le c v f.bytes))

-- The entries read so far, `k` of them, and where the cursor stands.
record Progress (k : ℕ) (m : Gguf) (r : Gguf × Cursor) : Type 0 where
  entries : HasEntries k r.0
  header : SameHeader m r.0
  reads : Reads m r.1

record ReadKv (c : Cursor) (r : Kv × Cursor) : Type 0 where
  at_value : r.0.value_pos ≡ r.1.pos
  extends : Extends c r.1

read_kv-ReadKv : (c : Cursor) → IsValid c → Post (read_kv c) (ReadKv c)
unfolding read_kv
read_kv-ReadKv c v =
    Post-bind (TookString c) (ReadKv c) (cursor_string c) _ (cursor_string-TookString c v) λ r1 p1.
      let e1 = p1.extends in
      Post-bind (TookWord r1.1 4) (ReadKv c) (cursor_u32 r1.1)
        (λ r2. ok (record { key = r1.0; type = r2.0; value_pos = r2.1.pos }, r2.1))
        (cursor_u32-TookWord r1.1 (Extends-IsValid v e1))
        (λ r2 p2. record { at_value = refl; extends = Extends-trans e1 p2.extends })

kv_step-Progress :
    (k : ℕ) (m : Gguf) (c : Cursor)
    → IsMapping m
    → Reads m c
    → HasEntries k m
    → Post (kv_step m c) (Progress (suc k) m)
unfolding kv_step
kv_step-Progress k m c f r h =
    let v = Reads-IsValid f r in
    Post-bind (ReadKv c) (Progress (suc k) m) (read_kv c) _ (read_kv-ReadKv c v) λ r1 p1.
      let kv = r1.0 in
      let v1 = Extends-IsValid v p1.extends in
      Post-bind (Passes 1 r1.1) (Progress (suc k) m) (skip_value r1.1 kv.type 0)
        (λ c2. ok (record m { kv = m.kv ++ (kv ∷ []); alignment = entry_alignment m kv }, c2))
        (skip_value-Passes r1.1 kv.type 0 v1)
        λ c2 p2.
          let reads = Extends-Reads (Extends-Reads r p1.extends) p2.extends in
          let inside : kv.value_pos < m.size = omega (arith, p1.at_value, p2.taken, reads.inside) in
          let alignment =
            entry_alignment-IsAlignment m kv f (omega arith) (h.alignment_pos, h.alignment_max) in
          record {
            entries = record {
              count = omega (arith, h.count, length-append m.kv (kv ∷ []));
              values =
                  All-append (λ (x : Kv). x.value_pos < m.size) m.kv (kv ∷ []) h.values
                    (inside, tt);
              alignment_pos = alignment.0;
              alignment_max = alignment.1;
            };
            header = SameHeader_kv m (m.kv ++ (kv ∷ [])) (entry_alignment m kv);
            reads = record {
              same_base = reads.same_base;
              same_size = reads.same_size;
              inside = reads.inside;
            };
          }

kv_loop-Progress :
    (n k : ℕ) (m : Gguf) (c : Cursor)
    → IsMapping m
    → Reads m c
    → HasEntries k m
    → Post (kv_loop n m c) (Progress (k + n) m)
unfolding kv_loop
kv_loop-Progress zero k m c f r h = record {
  entries = rw add-zero h;
  header = SameHeader_refl m;
  reads = r;
}
kv_loop-Progress (suc n) k m c f r h =
    Post-bind (Progress (suc k) m) (Progress (k + suc n) m) (kv_step m c) _
      (kv_step-Progress k m c f r h)
      λ s p.
        Post_map (Progress (suc k + n) s.0) (Progress (k + suc n) m) (kv_loop n s.0 s.1)
          (λ t q. record {
            entries = let e : suc k + n ≡ k + suc n = omega arith in rw e at q.entries;
            header = SameHeader_trans p.header q.header;
            reads = SameHeader-Reads (SameHeader_back p.header) q.reads;
          })
          (kv_loop-Progress n (suc k) s.0 s.1 (SameHeader-IsMapping f p.header)
            (SameHeader-Reads p.header p.reads) p.entries)

-- What `parse_metadata` returns, on the structure `m` of the header.
pub record Parsed (m : Gguf) (r : Gguf × Cursor) : Type 0 where
  pub entries : HasEntries m.n_kv r.0
  pub header : SameHeader m r.0
  pub reads : Reads m r.1

pub parse_metadata-Parsed :
    (calloc : ℕ → ℕ → Bool) (m : Gguf) (c : Cursor)
    → IsMapping m
    → Reads m c
    → Post (parse_metadata calloc m c) (Parsed m)
unfolding parse_metadata
parse_metadata-Parsed calloc m c f r =
    let m0 = record m { kv = []; alignment = 32 } in
    let same : SameHeader m m0 = SameHeader_kv m [] 32 in
    let loop =
      Post_map (Progress (0 + m.n_kv) m0) (Parsed m) (kv_loop m.n_kv m0 c)
        (λ s p. record {
          entries = rw zero-add at p.entries;
          header = SameHeader_trans same p.header;
          reads = SameHeader-Reads (SameHeader_back same) p.reads;
        })
        (kv_loop-Progress m.n_kv 0 m0 c (SameHeader-IsMapping f same) (SameHeader-Reads same r)
          (record {
            count = refl;
            values = tt;
            alignment_pos = omega arith;
            alignment_max = omega arith;
          })) in
    ground (arith, loop)
