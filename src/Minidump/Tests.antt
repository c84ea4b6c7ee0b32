-- ===== src/Minidump/Tests.antt =====
-- A small minidump with one module and one crash, and the theorems at it.
use gopnique.Base.{
  ℕ, zero, suc, ◌+◌, ◌/◌, ◌%◌, ◌≤◌, ◌<◌, ◌≡◌, refl, ap, length-append, true, List, [], ◌∷◌, ◌++◌,
  Option, none, some, arith, min, length, ltb, leb, if◌then◌else◌, take, drop, all, All, All-take,
  All-drop, length-take, length-drop, filter_map, range_from,
}
use gopnique.Base.Result.{ok}
use gopnique.Base.Text.{
  codes, text_eq, trim_space, trim_left, trim_right, is_space, valid_utf8, byte_len, remove_all,
  to_lower, has_prefix,
}
use gopnique.Domain.Native.{
  DebugIdentifier, NativeModule, NativeFrame, new_debug_identifier, new_native_module,
  new_native_frame, new_native_frame_with_module, is_hex_digit, visible_string,
  normalize_native_code_file, normalize_native_function, normalize_native_package,
}
use gopnique.Domain.Native.Canonical.{IsCanonical, new_debug_identifier_sound}
use gopnique.Minidump.Layout.{
  Bytes, ReaderAt, read_minidump_bytes, little_endian, hex_digit, hex_fixed, hex_min, hex_bytes,
  pdb70_debug_identifier, utf16_units, utf16_decode, read_minidump_uint32, read_minidump_uint64,
  read_minidump_string, parse_minidump_code_view_debug_id,
}
use gopnique.Minidump.Streams.{
  StreamDirectoryEntry, NativeMetadata, find_minidump_stream, minidump_range_within_stream,
  minidump_module_contains_instruction_addr, minidump_module_for_instruction_addr,
  read_minidump_directory_entry, read_entries, read_minidump_directory, parse_minidump_module,
  collect_modules, parse_minidump_modules, parse_minidump_exception_instruction,
  parse_minidump_frames, parse_metadata, parse_native_metadata,
}
use gopnique.Minidump.Bounds.{parse_native_metadata_within}
use gopnique.Minidump.Fields.{IsWellFormed, parse_native_metadata-IsWellFormed}
use gopnique.Minidump.Modules.{record_offset, record_count, parse_minidump_modules-filter_map}
use gopnique.Minidump.Crash.{Attribution, parse_minidump_frames-some}
use gopnique.Minidump.Collisions.{pdb70_debug_identifier_inj}

abbrev IsByte : ℕ → Type 0
IsByte b = b < 256

all-IsByte : (bs : Bytes) → all (λ b. ltb b 256) bs ≡ true → All IsByte bs
all-IsByte [] h = tt
all-IsByte (b ∷ bs) h = (ground arith, all-IsByte bs (ground arith))

-- `bytes.Reader.ReadAt` with a full buffer
abbrev read_list : Bytes → ℕ → ℕ → Option Bytes
read_list content offset count =
    if leb (offset + count) (length content) then some (take count (drop offset content)) else none

read_list-full :
    (content : Bytes) (offset count : ℕ) (bs : Bytes)
    → read_list content offset count ≡ some bs
    → length bs ≡ count
read_list-full content offset count bs h =
    ground (arith, length-take count (drop offset content), length-drop offset content)

read_list-bytes :
    (content : Bytes) (offset count : ℕ) (bs : Bytes)
    → all (λ b. ltb b 256) content ≡ true
    → read_list content offset count ≡ some bs
    → All IsByte bs
read_list-bytes content offset count bs h e =
    let small =
      All-take IsByte count (drop offset content)
        (All-drop IsByte offset content (all-IsByte content h)) in
    let within : leb (offset + count) (length content) ≡ true = ground arith in
    let same : take count (drop offset content) ≡ bs = ground arith in rw same at small

abbrev reader_of : (content : Bytes) → all (λ b. ltb b 256) content ≡ true → ReaderAt
reader_of content h = record {
  read_at = read_list content;
  full = read_list-full content;
  bytes = λ offset count bs e. read_list-bytes content offset count bs h e;
}

abbrev zeros : ℕ → Bytes
zeros zero = []
zeros (suc n) = 0 ∷ zeros n

abbrev le : ℕ → ℕ → Bytes
le zero n = []
le (suc k) n = (n % 256) ∷ le k (n / 256)

abbrev sample_guid : Bytes
sample_guid = 1 ∷ 2 ∷ 3 ∷ 4 ∷ 5 ∷ 6 ∷ 7 ∷ 8 ∷ 9 ∷ 10 ∷ 11 ∷ 12 ∷ 13 ∷ 14 ∷ 15 ∷ 0xff ∷ []

-- The header, two directory entries, a list of one module, an exception record whose context lies
-- over the end of the file, a name and a CodeView record.
abbrev sample : Bytes
sample =
    codes "MDMP"
    ++ (zeros 4
        ++ (le 4 2
            ++ (le 4 32
                ++ (zeros 16
                    ++ (le 4 4
                        ++ (le 4 112
                            ++ (le 4 56
                                ++ (le 4 6
                                    ++ (le 4 168
                                        ++ (le 4 168
                                            ++ (le 4 1
                                                ++ (le 8 0x1000
                                                    ++ (le 4 0x500
                                                        ++ (zeros 8
                                                            ++ (le 4 352
                                                            ++ (zeros 52
                                                            ++ (le 4 24
                                                            ++ (le 4 360
                                                            ++ (zeros 24
                                                            ++ (zeros 160
                                                            ++ (le 4 256
                                                            ++ (le 4 96
                                                            ++ (zeros 8
                                                            ++ (le 8 0x1100
                                                            ++ (le 4 4
                                                            ++ (codes "a"
                                                            ++ (zeros 1
                                                            ++ (codes "b"
                                                            ++ (zeros 1
                                                            ++ (codes "RSDS"
                                                            ++ (sample_guid
                                                            ++ le 4 1)))))))))))))))))))))))))))))))

sample-length : length sample ≡ 384
sample-length = refl

abbrev sample_reader : ReaderAt
sample_reader = reader_of sample refl

abbrev keep : ℕ → ℕ
keep c = c

abbrev sample_id : DebugIdentifier
sample_id = record { value = codes "0403020106050807090a0b0c0d0e0fff1" }

abbrev sample_module : NativeModule
sample_module = record {
  debug_id = sample_id;
  code_file = codes "ab";
  image_addr = 0x1000;
  image_size = 0x500;
}

abbrev sample_metadata : NativeMetadata
sample_metadata = record {
  modules = sample_module ∷ [];
  frames =
      record {
        instruction_addr = 0x1100;
        module_debug_id = sample_id;
        has_module = true;
        function = [];
        pkg = codes "ab";
      }
      ∷ [];
}

-- everything that runs in a test
running : Unit {0}
unfolding parse_native_metadata parse_metadata read_minidump_bytes text_eq read_minidump_directory
    read_entries read_minidump_directory_entry read_minidump_uint32 read_minidump_uint64
    little_endian parse_minidump_modules find_minidump_stream collect_modules
    minidump_range_within_stream parse_minidump_module parse_minidump_code_view_debug_id has_prefix
    pdb70_debug_identifier hex_fixed hex_digit hex_min hex_bytes new_debug_identifier trim_space
    trim_left trim_right is_space remove_all to_lower byte_len is_hex_digit read_minidump_string
    utf16_units utf16_decode new_native_module normalize_native_code_file valid_utf8 visible_string
    parse_minidump_frames parse_minidump_exception_instruction minidump_module_for_instruction_addr
    minidump_module_contains_instruction_addr new_native_frame new_native_frame_with_module
    normalize_native_function normalize_native_package
running = tt

sample_runs : parse_native_metadata keep (some sample_reader) 384 ≡ ok sample_metadata
unfolding running
sample_runs = refl

-- A reader that fails at and beyond the size, and agrees with the sample below it.
abbrev longer_reader : ReaderAt
longer_reader = reader_of (sample ++ (9 ∷ 9 ∷ [])) refl

parse_native_metadata-IsWellFormed_example : All IsWellFormed sample_metadata.modules
parse_native_metadata-IsWellFormed_example =
    parse_native_metadata-IsWellFormed keep sample_reader 384 sample_metadata sample_runs

pdb70_debug_identifier_inj_example : (sample_guid ≡ sample_guid) × (17 ≡ 16 + 1)
pdb70_debug_identifier_inj_example =
    pdb70_debug_identifier_inj sample_guid sample_guid 17 (16 + 1) refl refl (omega arith)
      (omega arith) (omega arith) (omega arith) refl

new_debug_identifier_sound_example :
    IsCanonical sample_id.value × (new_debug_identifier keep sample_id.value ≡ ok sample_id)
unfolding running
new_debug_identifier_sound_example =
    new_debug_identifier_sound keep (codes " 04030201-0605-0807-090A-0B0C0D0E0FFF1 ") sample_id refl

abbrev sample_read : ℕ → ℕ → Option Bytes
sample_read = read_minidump_bytes sample_reader 384

abbrev module_entry : StreamDirectoryEntry
module_entry = record { stream_type = 4; data_size = 112; rva = 56 }

abbrev exception_entry : StreamDirectoryEntry
exception_entry = record { stream_type = 6; data_size = 168; rva = 168 }

abbrev sample_entries : List StreamDirectoryEntry
sample_entries = module_entry ∷ exception_entry ∷ []

parse_minidump_modules-filter_map_example :
    parse_minidump_modules sample_read keep sample_entries ≡ (
      if ltb 512 1
      then []
      else filter_map
          (λ i. parse_minidump_module sample_read keep (record_offset module_entry i))
          (range_from 0 (min 1 (record_count module_entry))))
unfolding running
parse_minidump_modules-filter_map_example =
    parse_minidump_modules-filter_map sample_read keep sample_entries module_entry 1 refl refl
      (omega arith)

parse_minidump_frames-some_example :
    (f : NativeFrame) × (parse_minidump_frames sample_read sample_entries (sample_module ∷ [])
      ≡ f ∷ [])
    × (f.instruction_addr ≡ 0x1100)
    × Attribution (sample_module ∷ []) 0x1100 f
unfolding running
parse_minidump_frames-some_example =
    parse_minidump_frames-some sample_read sample_entries (sample_module ∷ []) 0x1100 refl

take-append : (n : ℕ) (xs ys : Bytes) → n ≤ length xs → take n (xs ++ ys) ≡ take n xs
take-append zero xs ys h = refl
take-append (suc n) [] ys h = absurd (omega arith)
take-append (suc n) (x ∷ xs) ys h = cc (take-append n xs ys (omega arith))

drop-append : (n : ℕ) (xs ys : Bytes) → n ≤ length xs → drop n (xs ++ ys) ≡ drop n xs ++ ys
drop-append zero xs ys h = refl
drop-append (suc n) [] ys h = absurd (omega arith)
drop-append (suc n) (x ∷ xs) ys h = drop-append n xs ys (omega arith)

read_list-append :
    (xs ys : Bytes) (offset count : ℕ)
    → offset + count ≤ length xs
    → read_list xs offset count ≡ read_list (xs ++ ys) offset count
read_list-append xs ys offset count h =
    let part : count ≤ length (drop offset xs) = omega (arith, length-drop offset xs) in
    let cut = take-append count (drop offset xs) ys part in
    let back = drop-append offset xs ys (omega arith) in
    ground (arith, length-append xs ys, ap (take count) back, cut)

parse_native_metadata_within_example :
    parse_native_metadata keep (some sample_reader) 384
    ≡ parse_native_metadata keep (some longer_reader) 384
parse_native_metadata_within_example =
    parse_native_metadata_within keep sample_reader longer_reader 384
      (read_list-append sample (9 ∷ 9 ∷ []))
