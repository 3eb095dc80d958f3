-- ===== src/Manifest/Reopen.antt =====
-- src/property_delta_manifest.cpp: a manifest that AppendAdd and AppendRemove have written is what
-- OpenAndRecover reads back.
use rich_graph.Base.{
  ℕ, ◌+◌, ◌-◌, ◌%◌, ◌^◌, ◌<◌, true, List, [], ◌++◌, take, length, ◌≡◌, refl, sym, ap, ◌∙◌, arith,
  append_assoc, append-nil, take_append, length-append,
}
use rich_graph.Manifest.{PropertyDeltaManifestEntry}
use rich_graph.Manifest.Record.{record_bytes}
use rich_graph.Manifest.Codec.{length-record_bytes}
use rich_graph.Manifest.Fuel.{always, recover_go_on, recover_leave}
use rich_graph.Manifest.Replay.{Edit, round-record_bytes, round-cut_record}
use rich_graph.Manifest.Recover.{ok, Recovery, start, recover, apply_edit, round}
use rich_graph.Manifest.Append.{Manifest, OpenIo, open_and_recover}

-- Where the loop stands when it has read the whole log.
abbrev pub state_of : Manifest → Recovery
state_of m = record {
  offset = length m.log;
  last_sequence = m.next_edit_sequence - 1;
  active_entries = m.active_entries;
}

-- Recovery from the log arrives at the members of the object, whatever bytes follow.
pub record IsConsistent (m : Manifest) : Type 0 where
  pub positive : 0 < m.next_edit_sequence
  pub fits : m.next_edit_sequence < 2 ^ 64
  pub replays :
      (tail : List ℕ) → recover always (m.log ++ tail) start ≡ recover always tail (state_of m)

-- The calls to the operating system that OpenAndRecover makes succeed.
pub record Opens (io : OpenIo) : Type 0 where
  pub creates_directories : io.creates_directories ≡ true
  pub opens : io.opens ≡ true
  pub fstats : io.fstats ≡ true
  pub readable : io.readable ≡ always
  pub truncates : io.truncates ≡ true
  pub fdatasyncs : io.fdatasyncs ≡ true

recover_nil : (s : Recovery) → recover always [] s ≡ ok s
recover_nil s = recover_leave always [] s (ok s) (unfold round in refl)

-- A log that recovers to the members, perhaps with bytes behind them to be cut off.
open_from :
    (m : Manifest) (io : OpenIo) (log : List ℕ)
    → Opens io
    → m.next_edit_sequence < 2 ^ 64
    → 0 < m.next_edit_sequence
    → recover always log start ≡ ok (state_of m)
    → take (length m.log) log ≡ m.log
    → open_and_recover m.durability io log ≡ ok m
unfolding open_and_recover
open_from m io log o l p e k =
    let n : (m.next_edit_sequence - 1 + 1) % 2 ^ 64 ≡ m.next_edit_sequence = omega (arith, l, p) in
    simp (o.creates_directories, o.opens, o.fstats, o.readable, e, k, n, o.truncates, o.fdatasyncs)
      (ground arith)

-- The members that an edit stands for, with its record in the file.
abbrev pub edited : ℕ → List ℕ → Manifest → List PropertyDeltaManifestEntry → Manifest
edited type_code payload m active = record {
  durability = m.durability;
  next_edit_sequence = m.next_edit_sequence + 1;
  active_entries = active;
  log = m.log ++ record_bytes type_code m.next_edit_sequence payload;
}

-- What AppendRecord puts into the file, for an edit that applies.
module _ (type_code : ℕ) (payload : List ℕ) (m : Manifest)
    (active : List PropertyDeltaManifestEntry) (consistent : IsConsistent m)
    (edit : Edit type_code m.next_edit_sequence payload (state_of m))
    (applies : apply_edit type_code payload m.active_entries ≡ ok active) where
  pub edited-IsConsistent :
      m.next_edit_sequence + 1 < 2 ^ 64 → IsConsistent (edited type_code payload m active)
  edited-IsConsistent l = record {
    positive = omega arith;
    fits = l;
    replays = λ tail.
        let bytes = record_bytes type_code m.next_edit_sequence payload in
        let size : length (m.log ++ bytes) ≡ length m.log + (36 + length payload) = omega (
          arith,
          length-append m.log bytes,
          length-record_bytes type_code m.next_edit_sequence payload,
        ) in
        let same : m.next_edit_sequence + 1 - 1 ≡ m.next_edit_sequence = omega arith in
        rw (append_assoc, size, same)
          (consistent.replays (bytes ++ tail)
            ∙ recover_go_on always (bytes ++ tail) tail (state_of m) _ (
                round-record_bytes type_code m.next_edit_sequence payload (state_of m) edit active
                  tail applies));
  }

  -- For a consistent manifest, an edit that applies to it and has a payload of at most 2 ^ 30
  -- bytes and the next edit sequence, and an opening whose system calls succeed, opening a file
  -- that ends in the record of that edit cut short gives the manifest without the edit.
  pub open-cut_record :
      (n : ℕ) (io : OpenIo)
      → n < 36 + length payload
      → Opens io
      → open_and_recover m.durability io
          (m.log ++ take n (record_bytes type_code m.next_edit_sequence payload))
        ≡ ok m
  open-cut_record n io l o =
      let bytes = take n (record_bytes type_code m.next_edit_sequence payload) in
      open_from m io (m.log ++ bytes) o consistent.fits consistent.positive
        (consistent.replays bytes
          ∙ recover_leave always bytes (state_of m) _
              (round-cut_record type_code m.next_edit_sequence payload (state_of m) edit n l))
        (take_append m.log bytes (length m.log) refl)

-- Opening a consistent manifest's log gives the manifest.
pub open_and_recover-IsConsistent :
    (m : Manifest) (io : OpenIo)
    → IsConsistent m
    → Opens io
    → open_and_recover m.durability io m.log ≡ ok m
open_and_recover-IsConsistent m io c o =
    let at_end : recover always m.log start ≡ ok (state_of m) =
      ap (λ log. recover always log start) (sym (append-nil m.log))
      ∙ c.replays []
      ∙ recover_nil (state_of m) in
    let whole : take (length m.log) m.log ≡ m.log =
      ap (take (length m.log)) (sym (append-nil m.log))
      ∙ take_append m.log [] (length m.log) refl in
    open_from m io m.log o c.fits c.positive at_end whole
