-- ===== src/Gguf/Open/Sound.antt =====
-- Whatever `q3_gguf_open` of src/q3_gguf.c returns is a well-formed container.
use sera_c.Gguf.Metadata.Header.{Reads, IsMapping, Reads-IsValid}
use sera_c.Common.{
  ==_iff, Post-eq-ok, Post-require, require, ◌>>◌, ◌==◌, subst, u64_max, ℕ, ◌+◌, ◌%◌, ◌≤◌, ◌<◌, ◌≡◌,
  refl, sym, ap, ◌∙◌, Bool, Bytes, IsByte, All, length, arith, ok, Post, Post-bind,
}
use sera_c.Gguf.Cursor.{Cursor, bad_version, cursor_u32, cursor_u64}
use sera_c.Gguf.Cursor.Bounds.{
  IsValid, Extends-trans, Extends-IsValid, TookWord, cursor_u32-TookWord, cursor_u64-TookWord,
}
use sera_c.Gguf.Cursor.Words.{align_up_lem}
use sera_c.Gguf.File.{Kv, Gguf, cursor_at}
use sera_c.Gguf.Metadata.{parse_metadata}
use sera_c.Gguf.Metadata.Entries.{Parsed, parse_metadata-Parsed}
use sera_c.Gguf.Tensors.{parse_tensors}
use sera_c.Gguf.Tensors.Places.{IsPlaced, largest, Placed, parse_tensors-Placed}
use sera_c.Gguf.Open.{with_header, read_header, read_tables, mapped, gguf_open}

-- A container over the file `bs`.
pub record IsContainer (bs : Bytes) (m : Gguf) : Type 0 where
  pub same_map : m.map ≡ bs
  pub same_size : m.size ≡ length bs
  pub version : m.version ≡ 3
  pub kv_count : length m.kv ≡ m.n_kv
  pub kv_values : All (λ (kv : Kv). kv.value_pos < m.size) m.kv
  pub alignment_pos : 1 ≤ m.alignment
  pub aligned : m.tensor_data_pos % m.alignment ≡ 0
  pub tensor_count : length m.tensors ≡ m.n_tensors
  pub tensors : All (IsPlaced m.tensor_data_pos m.size) m.tensors
  pub max_exact : m.max_tensor_bytes ≡ largest m.tensors

-- The container that the two parsers make of a header.
IsContainer-of :
    (bs : Bytes) (m0 : Gguf) (r : Gguf × Cursor) (s : Gguf × Cursor)
    → m0.map ≡ bs
    → m0.size ≡ length bs
    → m0.version ≡ 3
    → length bs < 0x8000_0000_0000_0000
    → Parsed m0 r
    → Placed r.0 s
    → IsContainer bs s.0
IsContainer-of bs m0 r s map size version small p q =
    let t = q.tensors in
    let h = p.header in
    let e = p.entries in
    let fits : s.1.pos + r.0.alignment ≤ u64_max = omega arith in
    let (low, high, multiple) = align_up_lem s.1.pos r.0.alignment e.alignment_pos fits in
    subst (IsContainer bs) (sym t.rest) (record {
      same_map = h.same_map ∙ map;
      same_size = h.same_size ∙ size;
      version = h.same_version ∙ version;
      kv_count = e.count ∙ sym h.same_n_kv;
      kv_values = e.values;
      alignment_pos = e.alignment_pos;
      aligned = ap (λ (x : ℕ). x % r.0.alignment) q.data_pos_exact ∙ multiple;
      tensor_count = t.count;
      tensors = t.placed;
      max_exact = t.max_exact;
    })

read_tables-IsContainer :
    (calloc : ℕ → ℕ → Bool) (bs : Bytes) (m0 : Gguf) (c : Cursor)
    → m0.map ≡ bs
    → m0.size ≡ length bs
    → m0.version ≡ 3
    → m0.max_tensor_bytes ≡ 0
    → All IsByte bs
    → length bs < 0x8000_0000_0000_0000
    → Reads m0 c
    → Post (read_tables calloc m0 c) (IsContainer bs)
unfolding read_tables
read_tables-IsContainer calloc bs m0 c map size version zero_max bytes small reads =
    let f : IsMapping m0 = record {
      bytes = rw map bytes;
      mapped = ap length map ∙ sym size;
      fits = omega arith;
    } in
    Post-bind (Parsed m0) (IsContainer bs) (parse_metadata calloc m0 c) _
      (parse_metadata-Parsed calloc m0 c f reads)
      λ r p.
        let h = p.header in
        Post-bind (Placed r.0) (IsContainer bs) (parse_tensors calloc r.0 r.1) (λ s. ok s.0)
          (parse_tensors-Placed calloc r.0 r.1 (Reads-IsValid f p.reads) (omega arith) (omega arith)
            (h.same_max ∙ zero_max) p.entries.alignment_pos p.entries.alignment_max)
          (λ s q. IsContainer-of bs m0 r s map size version small p q)

-- A header that `read_header` accepts, and the cursor behind it.
record Header (bs : Bytes) (r : Gguf × Cursor) : Type 0 where
  map : r.0.map ≡ bs
  size : r.0.size ≡ length bs
  version : r.0.version ≡ 3
  zero_max : r.0.max_tensor_bytes ≡ 0
  reads : Reads r.0 r.1

read_header-Header :
    (bs : Bytes) → length bs < 0x8000_0000_0000_0000 → Post (read_header (mapped bs)) (Header bs)
unfolding read_header cursor_at
read_header-Header bs small =
    let m = mapped bs in
    let c = cursor_at m 0 in
    let v : IsValid c = record { mapped = refl; fits = omega arith; inside = omega arith } in
    Post-bind (TookWord c 4) (Header bs) (cursor_u32 c) _ (cursor_u32-TookWord c v) λ r0 p0.
      Post-require (Header bs) _ _ _ λ magic.
        let e0 = p0.extends in
        Post-bind (TookWord r0.1 4) (Header bs) (cursor_u32 r0.1) _
          (cursor_u32-TookWord r0.1 (Extends-IsValid v e0))
          λ r1 p1.
            let e1 = Extends-trans e0 p1.extends in
            Post-bind (TookWord r1.1 8) (Header bs) (cursor_u64 r1.1) _
              (cursor_u64-TookWord r1.1 (Extends-IsValid v e1))
              λ r2 p2.
                let e2 = Extends-trans e1 p2.extends in
                Post-bind (TookWord r2.1 8) (Header bs) (cursor_u64 r2.1)
                  (λ r3. require (r1.0 == 3) bad_version >> ok (with_header m r1.0 r2.0 r3.0, r3.1))
                  (cursor_u64-TookWord r2.1 (Extends-IsValid v e2))
                  λ r3 p3.
                    Post-require (Header bs) (r1.0 == 3) bad_version
                      (ok (with_header m r1.0 r2.0 r3.0, r3.1))
                      λ three.
                        let e3 = Extends-trans e2 p3.extends in
                        record {
                          map = refl;
                          size = refl;
                          version = (==_iff r1.0 3).0 three;
                          zero_max = refl;
                          reads = record {
                            same_base = e3.same_base;
                            same_size = e3.same_size;
                            inside = e3.within;
                          };
                        }

gguf_open-Post :
    (calloc : ℕ → ℕ → Bool) (bs : Bytes)
    → All IsByte bs
    → length bs < 0x8000_0000_0000_0000
    → Post (gguf_open calloc bs) (IsContainer bs)
unfolding gguf_open
gguf_open-Post calloc bs bytes small =
    let tables =
      Post-bind (Header bs) (IsContainer bs) (read_header (mapped bs))
        (λ r. read_tables calloc r.0 r.1) (read_header-Header bs small)
        (λ r h.
          read_tables-IsContainer calloc bs r.0 r.1 h.map h.size h.version h.zero_max bytes small
            h.reads) in
    ground (arith, tables)

pub gguf_open-IsContainer :
    (calloc : ℕ → ℕ → Bool) (bs : Bytes) {m : Gguf}
    → All IsByte bs
    → length bs < 0x8000_0000_0000_0000
    → gguf_open calloc bs ≡ ok m
    → IsContainer bs m
gguf_open-IsContainer calloc bs bytes small e =
    Post-eq-ok (IsContainer bs) (gguf_open calloc bs) (gguf_open-Post calloc bs bytes small) e
