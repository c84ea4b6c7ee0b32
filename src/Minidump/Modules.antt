-- ===== src/Minidump/Modules.antt =====
-- The module list: which records of the stream are read.
use gopnique.Base.{
  ℕ, zero, suc, ◌+◌, ◌-◌, ◌*◌, ◌/◌, ◌^◌, ◌≤◌, ◌<◌, ◌≡◌, min, true, false, List, [], Option, some,
  arith, ltb, ◌==◌, if◌then◌else◌, Bool-cases, inl, inr, filter_map, range_from,
}
use gopnique.Minidump.Layout.{Bytes, u32, read_minidump_uint32}
use gopnique.Minidump.Streams.{
  StreamDirectoryEntry, collect_modules, parse_minidump_module, minidump_range_within_stream,
  parse_minidump_modules, find_minidump_stream, minidump_module_list_stream,
}

-- record `i` of a module list stream
abbrev pub record_offset : StreamDirectoryEntry → ℕ → ℕ
record_offset entry i = entry.rva + 4 + i * 108

-- how many whole records fit behind the stream's count field
abbrev pub record_count : StreamDirectoryEntry → ℕ
record_count entry = (entry.data_size - 4) / 108

within_iff :
    (entry : StreamDirectoryEntry) (i : ℕ)
    → entry.rva + entry.data_size ≤ 2 ^ 32
    → i < 512
    → minidump_range_within_stream entry (u32 (record_offset entry i)) 108 ≡ true
    → (i < record_count entry) × (u32 (record_offset entry i) ≡ record_offset entry i)
unfolding minidump_range_within_stream
within_iff entry i fits few h = ground arith

outside :
    (entry : StreamDirectoryEntry) (i : ℕ)
    → entry.rva + entry.data_size ≤ 2 ^ 32
    → i < 512
    → minidump_range_within_stream entry (u32 (record_offset entry i)) 108 ≡ false
    → record_count entry ≤ i
unfolding minidump_range_within_stream
outside entry i fits few h = ground arith

module _ (read : ℕ → ℕ → Option Bytes) (lower : ℕ → ℕ) where
  collect_modules-filter_map :
      (entry : StreamDirectoryEntry) (index left : ℕ)
      → entry.rva + entry.data_size ≤ 2 ^ 32
      → index + left ≤ 512
      → collect_modules read lower entry index left
        ≡ filter_map
            (λ i. parse_minidump_module read lower (record_offset entry i))
            (range_from index (min left (record_count entry - index)))
  unfolding collect_modules
  collect_modules-filter_map entry index zero fits few =
      let none_left : min 0 (record_count entry - index) ≡ 0 = omega arith in rw none_left
  collect_modules-filter_map entry index (suc left) fits few =
      elim (Bool-cases (minidump_range_within_stream entry (u32 (record_offset entry index)) 108)) [
        | inl e ↦
            let (more, plain) = within_iff entry index fits (omega arith) e in
            let step : min (suc left) (record_count entry - index)
                ≡ suc (min left (record_count entry - suc index)) =
              omega arith in
            let ih = collect_modules-filter_map entry (suc index) left fits (omega arith) in
            rw step (ground (arith, e, plain, ih))
        | inr e ↦
            let stop : min (suc left) (record_count entry - index) ≡ 0 =
              omega (arith, outside entry index fits (omega arith) e) in
            rw stop (ground (arith, e))
      ]

  -- For a module list stream that ends below 4 GiB and declares `n` modules: above 512 nothing is
  -- read. Otherwise the result is the list of those readable modules among the first `n` records
  -- that lie wholly inside the stream, in file order, each at its true offset; the record at which
  -- the loop stops, and the unreadable ones, add nothing.
  pub parse_minidump_modules-filter_map :
      (entries : List StreamDirectoryEntry) (entry : StreamDirectoryEntry) (n : ℕ)
      → find_minidump_stream entries minidump_module_list_stream ≡ some entry
      → read_minidump_uint32 read entry.rva ≡ some n
      → entry.rva + entry.data_size ≤ 2 ^ 32
      → parse_minidump_modules read lower entries ≡ (
          if ltb 512 n
          then []
          else filter_map
              (λ i. parse_minidump_module read lower (record_offset entry i))
              (range_from 0 (min n (record_count entry))))
  unfolding parse_minidump_modules
  parse_minidump_modules-filter_map entries entry n e f fits = elim (Bool-cases (n == 0)) [
    | inl p ↦
        let empty : n ≡ 0 = ground arith in
        let none_left : min 0 (record_count entry) ≡ 0 = omega arith in
        rw (e, parse_minidump_modules) (rw f (rw empty (rw none_left)))
    | inr p ↦ elim (Bool-cases (ltb 512 n)) [
      | inl q ↦ rw (e, parse_minidump_modules) (rw f (rw (p, q)))
      | inr q ↦
          let all_of = collect_modules-filter_map entry 0 n fits (ground arith) in
          let whole : record_count entry - 0 ≡ record_count entry = omega arith in
          rw (e, parse_minidump_modules) (rw f (rw (p, q) (rw whole at all_of)))
    ]
  ]
