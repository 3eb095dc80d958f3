-- ===== src/Delta/Codec.antt =====
-- The header and the records of a delta file read back as Create wrote them.
use mathlib.Core.List.{foldl-append}
use rich_graph.Base.{
  ℕ, zero, suc, ◌+◌, ◌*◌, ◌^◌, ◌<◌, List, [], ◌∷◌, ◌++◌, drop, length, get_or, All, ◌≡◌, refl, sym,
  arith, append_assoc, take_append, drop_append, drop_add, length-append,
}
use rich_graph.Pod.{encode_fields, decode_fields}
use rich_graph.Pod.Laws.{
  Fits, length-encode_fields, decode_fields-encode_fields, IsInt64, int64_word-lt,
  word_int64-int64_word,
}
use rich_graph.Fnv.{checksum_step, extend_checksum}
use rich_graph.Delta.{DeltaDiskRecord}
use rich_graph.Delta.Image.{
  DeltaDiskHeader, header_fields, encode_header, decode_header, record_fields, record_widths,
  encode_record, encode_records, record_of_fields, load_disk_record,
}

pub decode_header-encode_header :
    (h : DeltaDiskHeader) (rest : List ℕ)
    → length h.magic ≡ 8
    → Fits (header_fields h)
    → decode_header (encode_header h ++ rest) ≡ h
unfolding decode_header encode_header
decode_header-encode_header h rest m fits =
    let fields = encode_fields (header_fields h) in
    simp (
      append_assoc,
      take_append h.magic (fields ++ rest) 8 (sym m),
      drop_append h.magic (fields ++ rest) 8 (sym m),
      decode_fields-encode_fields (header_fields h) rest fits,
    )

pub length-encode_header :
    (h : DeltaDiskHeader) → length h.magic ≡ 8 → length (encode_header h) ≡ 120
unfolding encode_header
length-encode_header h m = omega (
  arith,
  length-append h.magic (encode_fields (header_fields h)),
  length-encode_fields (header_fields h),
)

-- The fields of a disk record hold what they are given.
pub record IsStorable (d : DeltaDiskRecord) : Type 0 where
  pub src : d.src < 2 ^ 64
  pub dst : d.dst < 2 ^ 64
  pub base_sequence : IsInt64 d.base_sequence
  pub commit_sequence : d.commit_sequence < 2 ^ 64
  pub value_offset : d.value_offset < 2 ^ 64
  pub value_length : d.value_length < 2 ^ 32
  pub edge_type : d.edge_type < 256
  pub is_out : d.is_out < 256

record-Fits : (d : DeltaDiskRecord) → IsStorable d → Fits (record_fields d)
record-Fits d s = omega (arith, int64_word-lt d.base_sequence s.base_sequence)

length-encode_record : (d : DeltaDiskRecord) → length (encode_record d) ≡ 48
unfolding encode_record
length-encode_record d = length-encode_fields (record_fields d)

pub length-encode_records :
    (ds : List DeltaDiskRecord) → length (encode_records ds) ≡ length ds * 48
unfolding encode_records
length-encode_records [] = refl
length-encode_records (d ∷ ds) = omega (
  arith,
  length-append (encode_record d) (encode_records ds),
  length-encode_record d,
  length-encode_records ds,
)

read_record :
    (d : DeltaDiskRecord) (rest : List ℕ)
    → IsStorable d
    → record_of_fields (decode_fields record_widths (encode_record d ++ rest)) ≡ d
unfolding encode_record
read_record d rest s = rw (
  decode_fields-encode_fields (record_fields d) rest (record-Fits d s),
  word_int64-int64_word d.base_sequence s.base_sequence,
)

read_records :
    (ds : List DeltaDiskRecord) (rest : List ℕ) (i : ℕ) (blank : DeltaDiskRecord)
    → All IsStorable ds
    → i < length ds
    → record_of_fields (decode_fields record_widths (drop (i * 48) (encode_records ds ++ rest)))
      ≡ get_or ds i blank
unfolding encode_records
read_records [] rest i blank s h = absurd (omega arith)
read_records (d ∷ ds) rest zero blank s h =
    rw append_assoc (read_record d (encode_records ds ++ rest) s.0)
read_records (d ∷ ds) rest (suc i) blank s h =
    let e : suc i * 48 ≡ 48 + i * 48 = omega arith in
    rw
      (
        append_assoc,
        e,
        drop_add 48 (i * 48) (encode_record d ++ (encode_records ds ++ rest)),
        drop_append (encode_record d) (encode_records ds ++ rest) 48 (sym (length-encode_record d)),
      )
      (read_records ds rest i blank s.1 (omega arith))

-- A record is found behind the header by its index.
pub load_disk_record-encode_records :
    (header : List ℕ) (ds : List DeltaDiskRecord) (rest : List ℕ) (i : ℕ) (blank : DeltaDiskRecord)
    → length header ≡ 120
    → All IsStorable ds
    → i < length ds
    → load_disk_record (header ++ (encode_records ds ++ rest)) 120 i ≡ get_or ds i blank
unfolding load_disk_record
load_disk_record-encode_records header ds rest i blank e s h =
    rw
      (
        drop_add 120 (i * 48) (header ++ (encode_records ds ++ rest)),
        drop_append header (encode_records ds ++ rest) 120 (sym e),
      )
      (read_records ds rest i blank s h)

pub extend_checksum-append :
    (hash : ℕ) (xs ys : List ℕ)
    → extend_checksum hash (xs ++ ys) ≡ extend_checksum (extend_checksum hash xs) ys
unfolding extend_checksum
extend_checksum-append hash xs ys = rw foldl-append

pub extend_checksum-lt :
    (hash : ℕ) (bytes : List ℕ) → hash < 2 ^ 64 → extend_checksum hash bytes < 2 ^ 64
unfolding extend_checksum
extend_checksum-lt hash [] h = h
extend_checksum-lt hash (b ∷ bs) h =
    extend_checksum-lt (checksum_step hash b) bs (unfold checksum_step in omega arith)
