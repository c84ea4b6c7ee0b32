-- ===== src/Minidump/Streams.antt =====
-- The stream directory, the module list and the exception record of a minidump, and the whole of
-- `ParseNativeMetadata`.
use gopnique.Base.{
  ℕ, zero, suc, ◌+◌, ◌-◌, ◌*◌, Bool, true, false, not, ◌&&◌, List, [], ◌∷◌, Option, none, some, leb,
  ltb, ◌==◌, if◌then◌else◌,
}
use gopnique.Base.Maybe.{◌>>=◌, ◌>>◌, fail_if}
use gopnique.Base.Result.{Result, ok, err}
use gopnique.Base.Text.{codes, text_eq}
use gopnique.Domain.Native.{
  NativeModule, NativeFrame, new_native_module, new_native_frame, new_native_frame_with_module,
}
use gopnique.Minidump.Layout.{
  Bytes, u32, ReaderAt, read_minidump_bytes, read_minidump_uint32, read_minidump_uint64,
  read_minidump_string, parse_minidump_code_view_debug_id,
}

pub record StreamDirectoryEntry : Type 0 where
  pub stream_type : ℕ  -- uint32
  pub data_size : ℕ  -- uint32
  pub rva : ℕ  -- uint32

pub record NativeMetadata : Type 0 where
  pub modules : List NativeModule
  pub frames : List NativeFrame

abbrev pub minidump_header_bytes : ℕ
minidump_header_bytes = 32

abbrev pub minidump_directory_bytes : ℕ
minidump_directory_bytes = 12

abbrev pub minidump_module_bytes : ℕ
minidump_module_bytes = 108

abbrev pub minidump_max_stream_count : ℕ
minidump_max_stream_count = 128

abbrev pub minidump_max_module_count : ℕ
minidump_max_module_count = 512

abbrev pub minidump_module_list_stream : ℕ
minidump_module_list_stream = 4

abbrev pub minidump_exception_stream : ℕ
minidump_exception_stream = 6

abbrev pub minidump_x64_rip_offset : ℕ
minidump_x64_rip_offset = 248

abbrev pub minidump_exception_ctx_size : ℕ
minidump_exception_ctx_size = 160

abbrev pub minidump_exception_ctx_rva : ℕ
minidump_exception_ctx_rva = 164

abbrev pub minidump_module_base : ℕ
minidump_module_base = 0

abbrev pub minidump_module_size : ℕ
minidump_module_size = 8

abbrev pub minidump_module_name_rva : ℕ
minidump_module_name_rva = 20

abbrev pub minidump_module_cv_size : ℕ
minidump_module_cv_size = 76

abbrev pub minidump_module_cv_rva : ℕ
minidump_module_cv_rva = 80

abbrev pub minidump_magic : Bytes
minidump_magic = codes "MDMP"

unfoldable pub find_minidump_stream : List StreamDirectoryEntry → ℕ → Option StreamDirectoryEntry
find_minidump_stream [] stream_type = none
find_minidump_stream (entry ∷ entries) stream_type =
    let rest = find_minidump_stream entries stream_type in
    if entry.stream_type == stream_type then some entry else rest

-- computed in uint64
unfoldable pub minidump_range_within_stream : StreamDirectoryEntry → ℕ → ℕ → Bool
minidump_range_within_stream entry offset byte_count =
    leb entry.rva offset && leb (offset + byte_count) (entry.rva + entry.data_size)

unfoldable pub minidump_module_contains_instruction_addr : NativeModule → ℕ → Bool
minidump_module_contains_instruction_addr m instruction_addr =
    if ltb instruction_addr m.image_addr
    then false
    else if m.image_size == 0
    then instruction_addr == m.image_addr
    else ltb (instruction_addr - m.image_addr) m.image_size

unfoldable pub minidump_module_for_instruction_addr : List NativeModule → ℕ → Option NativeModule
minidump_module_for_instruction_addr [] instruction_addr = none
minidump_module_for_instruction_addr (m ∷ ms) instruction_addr =
    let rest = minidump_module_for_instruction_addr ms instruction_addr in
    if minidump_module_contains_instruction_addr m instruction_addr then some m else rest

-- the two attempts of `parseMinidumpFrames` to build a frame
abbrev frame_or : Result NativeFrame → List NativeFrame → List NativeFrame
frame_or (ok frame) otherwise = frame ∷ []
frame_or (err e) otherwise = otherwise

abbrev plain_frame : ℕ → List NativeFrame
plain_frame instruction_addr = frame_or (new_native_frame instruction_addr [] []) []

module _ (read : ℕ → ℕ → Option Bytes) where
  unfoldable pub read_minidump_directory_entry : ℕ → Option StreamDirectoryEntry
  read_minidump_directory_entry offset = do
    stream_type ← read_minidump_uint32 read offset
    data_size ← read_minidump_uint32 read (u32 (offset + 4))
    rva ← read_minidump_uint32 read (u32 (offset + 8))
    some (record { stream_type = stream_type; data_size = data_size; rva = rva })

  -- the loop of `readMinidumpDirectory`: the entries from `index` on, `left` of them
  unfoldable pub read_entries : ℕ → ℕ → ℕ → Option (List StreamDirectoryEntry)
  read_entries zero index directory_rva = some []
  read_entries (suc left) index directory_rva = do
    entry ← read_minidump_directory_entry (u32 (directory_rva + index * minidump_directory_bytes))
    entries ← read_entries left (suc index) directory_rva
    some (entry ∷ entries)

  unfoldable pub read_minidump_directory : ℕ → Option (List StreamDirectoryEntry)
  read_minidump_directory size = do
    fail_if (ltb size minidump_header_bytes)
    stream_count ← read_minidump_uint32 read 8
    let some_streams : Option (List StreamDirectoryEntry) = do
      fail_if (ltb minidump_max_stream_count stream_count)
      directory_rva ← read_minidump_uint32 read 12
      read_entries stream_count 0 directory_rva
    if stream_count == 0 then some [] else some_streams

  unfoldable pub parse_minidump_exception_instruction : List StreamDirectoryEntry → Option ℕ
  parse_minidump_exception_instruction entries = do
    entry ← find_minidump_stream entries minidump_exception_stream
    fail_if (ltb entry.data_size (minidump_exception_ctx_rva + 4))
    context_size ← read_minidump_uint32 read (u32 (entry.rva + minidump_exception_ctx_size))
    context_rva ← read_minidump_uint32 read (u32 (entry.rva + minidump_exception_ctx_rva))
    fail_if (ltb context_size (minidump_x64_rip_offset + 8))
    instruction_addr ← read_minidump_uint64 read (u32 (context_rva + minidump_x64_rip_offset))
    fail_if (instruction_addr == 0)
    some instruction_addr

  unfoldable pub parse_minidump_frames :
      List StreamDirectoryEntry → List NativeModule → List NativeFrame
  parse_minidump_frames entries modules = elim (parse_minidump_exception_instruction entries) [
    | none ↦ []
    | some instruction_addr ↦ elim (minidump_module_for_instruction_addr modules instruction_addr) [
      | none ↦ plain_frame instruction_addr
      | some m ↦
          frame_or (new_native_frame_with_module instruction_addr m.debug_id [] m.code_file)
            (plain_frame instruction_addr)
    ]
  ]

module _ (read : ℕ → ℕ → Option Bytes) (lower : ℕ → ℕ) where
  unfoldable pub parse_minidump_module : ℕ → Option NativeModule
  parse_minidump_module offset = do
    image_addr ← read_minidump_uint64 read (u32 (offset + minidump_module_base))
    image_size ← read_minidump_uint32 read (u32 (offset + minidump_module_size))
    name_rva ← read_minidump_uint32 read (u32 (offset + minidump_module_name_rva))
    cv_size ← read_minidump_uint32 read (u32 (offset + minidump_module_cv_size))
    cv_rva ← read_minidump_uint32 read (u32 (offset + minidump_module_cv_rva))
    debug_id ← parse_minidump_code_view_debug_id read lower cv_rva cv_size
    code_file ← read_minidump_string read name_rva
    elim (new_native_module debug_id code_file image_addr image_size) [
      | ok m ↦ some m
      | err e ↦ none
    ]

  -- the loop of `parseMinidumpModules`
  unfoldable pub collect_modules : StreamDirectoryEntry → ℕ → ℕ → List NativeModule
  collect_modules entry index zero = []
  collect_modules entry index (suc left) =
      let offset = u32 (entry.rva + 4 + index * minidump_module_bytes) in
      let rest = collect_modules entry (suc index) left in
      elim (minidump_range_within_stream entry offset minidump_module_bytes) [
        | false ↦ []
        | true ↦ elim (parse_minidump_module offset) [ none ↦ rest | some m ↦ m ∷ rest ]
      ]

  abbrev modules_of_count : StreamDirectoryEntry → ℕ → List NativeModule
  modules_of_count entry module_count =
      if module_count == 0
      then []
      else if ltb minidump_max_module_count module_count
      then []
      else collect_modules entry 0 module_count

  unfoldable pub parse_minidump_modules : List StreamDirectoryEntry → List NativeModule
  parse_minidump_modules entries = elim (find_minidump_stream entries minidump_module_list_stream) [
    | none ↦ []
    | some entry ↦ elim (read_minidump_uint32 read entry.rva) [
      | none ↦ []
      | some module_count ↦ modules_of_count entry module_count
    ]
  ]

  -- `ParseNativeMetadata` for a reader that is not nil
  unfoldable pub parse_metadata : ℕ → Result NativeMetadata
  parse_metadata size = elim (read 0 4) [
    | none ↦ err "minidump payload is empty"
    | some prefix ↦
        if not (text_eq prefix minidump_magic)
        then err "minidump payload is not supported"
        else elim (read_minidump_directory read size) [
          | none ↦ ok (record { modules = []; frames = [] })
          | some entries ↦
              let modules = parse_minidump_modules entries in
              ok (record { modules = modules; frames = parse_minidump_frames read entries modules })
        ]
  ]

unfoldable pub parse_native_metadata : (ℕ → ℕ) → Option ReaderAt → ℕ → Result NativeMetadata
unfolding parse_metadata
parse_native_metadata lower none size = err "minidump reader is required"
parse_native_metadata lower (some reader) size =
    parse_metadata (read_minidump_bytes reader size) lower size
