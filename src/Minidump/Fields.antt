-- ===== src/Minidump/Fields.antt =====
-- The modules that come out of a minidump are well formed.
use gopnique.Base.{
  ℕ, zero, suc, ◌+◌, ◌*◌, ◌^◌, ◌≤◌, ◌<◌, ◌≡◌, true, false, not, Option, none, some, arith, length,
  ltb, Bool-cases, Option-cases, inl, inr, All, is_empty,
}
use gopnique.Base.Result.{Result, ok, err}
use gopnique.Base.Text.{Text, byte_len, valid_utf8, has_prefix}
use gopnique.Base.Maybe.{>>=-eq-some, fail_if}
use gopnique.Domain.Native.{
  DebugIdentifier, NativeModule, new_native_module, normalize_native_code_file, visible_string,
}
use gopnique.Domain.Native.Canonical.{IsCanonical, IsCanonical-new_debug_identifier}
use gopnique.Minidump.Layout.{
  Bytes, u32, ReaderAt, read_minidump_bytes, little_endian, read_minidump_uint32,
  read_minidump_uint64, read_minidump_string, parse_minidump_code_view_debug_id,
  code_view_pdb70_signature,
}
use gopnique.Minidump.Collisions.{little_endian-lt}
use gopnique.Minidump.Streams.{
  StreamDirectoryEntry, NativeMetadata, collect_modules, parse_minidump_module,
  minidump_range_within_stream, minidump_module_bytes, parse_native_metadata,
}
use gopnique.Minidump.Inversion.{
  Parsed, empty, streams, parse_minidump_modules-cases, parse_metadata_inv,
}

-- What the rest of the program may rely on for a native module.
pub record IsWellFormed (m : NativeModule) : Type 0 where
  pub canonical : IsCanonical m.debug_id.value
  pub addr : m.image_addr < 2 ^ 64
  pub size : m.image_size < 2 ^ 32
  pub named : is_empty m.code_file ≡ false
  pub name_fits : byte_len m.code_file ≤ 1024
  pub name_valid : valid_utf8 m.code_file ≡ true
  pub name_visible : visible_string m.code_file ≡ true

-- what `read` promises, for any reader behind `readMinidumpBytes`
abbrev IsReading : (ℕ → ℕ → Option Bytes) → Type 0
IsReading read =
    (offset count : ℕ) (bs : Bytes)
    → read offset count ≡ some bs
    → (length bs ≡ count) × All (λ b. b < 256) bs

read_minidump_bytes-IsReading : (r : ReaderAt) (size : ℕ) → IsReading (read_minidump_bytes r size)
unfolding read_minidump_bytes
read_minidump_bytes-IsReading r size offset count bs h =
    let e : r.read_at offset count ≡ some bs = ground arith in
    (r.full offset count bs e, r.bytes offset count bs e)

accepted {ℓ} :
    {A : Type ℓ} {a : A} (r : Result A)
    → (elim r [ ok b ↦ some b | err e ↦ none ]) ≡ some a
    → r ≡ ok a
accepted (ok b) h = ground arith
accepted (err e) h = cc

module _ (read : ℕ → ℕ → Option Bytes) (promise : IsReading read) (lower : ℕ → ℕ) where
  read_minidump_uint32-lt : (offset n : ℕ) → read_minidump_uint32 read offset ≡ some n → n < 2 ^ 32
  unfolding read_minidump_uint32
  read_minidump_uint32-lt offset n h =
      let (bs, e, f) = >>=-eq-some (read offset 4) _ h in
      let (l, small) = promise offset 4 bs e in
      let same : little_endian bs ≡ n = ground arith in
      rw (← same) (rw l at (little_endian-lt bs small))

  read_minidump_uint64-lt : (offset n : ℕ) → read_minidump_uint64 read offset ≡ some n → n < 2 ^ 64
  unfolding read_minidump_uint64
  read_minidump_uint64-lt offset n h =
      let (bs, e, f) = >>=-eq-some (read offset 8) _ h in
      let (l, small) = promise offset 8 bs e in
      let same : little_endian bs ≡ n = ground arith in
      rw (← same) (rw l at (little_endian-lt bs small))

  code_view-IsCanonical :
      (rva size : ℕ) (d : DebugIdentifier)
      → parse_minidump_code_view_debug_id read lower rva size ≡ some d
      → IsCanonical d.value
  unfolding parse_minidump_code_view_debug_id
  code_view-IsCanonical rva size d h =
      let (_, _, h1) = >>=-eq-some (fail_if (ltb size 24)) _ h in
      let (_, _, h2) = >>=-eq-some (fail_if (ltb 4096 size)) _ h1 in
      let (payload, _, h3) = >>=-eq-some (read rva size) _ h2 in
      let (_, _, h4) =
        >>=-eq-some (fail_if (not (has_prefix code_view_pdb70_signature payload))) _ h3 in
      IsCanonical-new_debug_identifier lower _ d (accepted _ h4)

  new_native_module_inv :
      (d : DebugIdentifier) (name : Text) (addr size : ℕ) (m : NativeModule)
      → new_native_module d name addr size ≡ ok m
      → (m.debug_id ≡ d)
        × (m.image_addr ≡ addr)
        × (m.image_size ≡ size)
        × (normalize_native_code_file name ≡ ok m.code_file)
  unfolding new_native_module
  new_native_module_inv d name addr size m h = ground arith

  normalize_native_code_file_inv :
      (name value : Text)
      → normalize_native_code_file name ≡ ok value
      → (is_empty value ≡ false)
        × (byte_len value ≤ 1024)
        × (valid_utf8 value ≡ true)
        × (visible_string value ≡ true)
  unfolding normalize_native_code_file
  normalize_native_code_file_inv name value h = ground arith

  fields_of :
      (offset : ℕ) (m : NativeModule)
      → parse_minidump_module read lower offset ≡ some m
      → IsWellFormed m
  unfolding parse_minidump_module
  fields_of offset m h =
      let (image_addr, a, h1) = >>=-eq-some (read_minidump_uint64 read (u32 (offset + 0))) _ h in
      let (image_size, b, h2) = >>=-eq-some (read_minidump_uint32 read (u32 (offset + 8))) _ h1 in
      let (name_rva, _, h3) = >>=-eq-some (read_minidump_uint32 read (u32 (offset + 20))) _ h2 in
      let (cv_size, _, h4) = >>=-eq-some (read_minidump_uint32 read (u32 (offset + 76))) _ h3 in
      let (cv_rva, _, h5) = >>=-eq-some (read_minidump_uint32 read (u32 (offset + 80))) _ h4 in
      let (d, e, h6) =
        >>=-eq-some (parse_minidump_code_view_debug_id read lower cv_rva cv_size) _ h5 in
      let (name, _, h7) = >>=-eq-some (read_minidump_string read name_rva) _ h6 in
      let (same_id, same_addr, same_size, named) =
        new_native_module_inv d name image_addr image_size m (accepted _ h7) in
      let (c1, c2, c3, c4) = normalize_native_code_file_inv name m.code_file named in
      record {
        canonical = rw same_id (code_view-IsCanonical cv_rva cv_size d e);
        addr = rw same_addr (read_minidump_uint64-lt _ image_addr a);
        size = rw same_size (read_minidump_uint32-lt _ image_size b);
        named = c1;
        name_fits = c2;
        name_valid = c3;
        name_visible = c4;
      }

  collect_modules-IsWellFormed :
      (entry : StreamDirectoryEntry) (index left : ℕ)
      → All IsWellFormed (collect_modules read lower entry index left)
  unfolding collect_modules
  collect_modules-IsWellFormed entry index zero = tt
  collect_modules-IsWellFormed entry index (suc left) =
      let offset = u32 (entry.rva + 4 + index * minidump_module_bytes) in
      let ih = collect_modules-IsWellFormed entry (suc index) left in
      elim (Bool-cases (minidump_range_within_stream entry offset minidump_module_bytes)) [
        | inr e ↦ rw (e, collect_modules) tt
        | inl e ↦
            rw (e, collect_modules)
              (elim (Option-cases (parse_minidump_module read lower offset)) [
                | inl f ↦ rw f ih
                | inr (m, f) ↦ rw f (fields_of offset m f, ih)
              ])
      ]

  Parsed-IsWellFormed : (md : NativeMetadata) → Parsed read lower md → All IsWellFormed md.modules
  Parsed-IsWellFormed md (empty e f) = rw e tt
  Parsed-IsWellFormed md (streams entries e f) =
      rw e (elim (parse_minidump_modules-cases read lower entries) [
        | inl g ↦ rw g tt
        | inr s ↦ rw s.collected (collect_modules-IsWellFormed s.entry 0 s.count)
      ])

-- Every module that comes out of a minidump has a canonical debug identifier, a 64-bit base, a
-- 32-bit size, and a code file name that is not empty, valid UTF-8, free of control characters and
-- at most 1024 bytes long.
pub parse_native_metadata-IsWellFormed :
    (lower : ℕ → ℕ) (r : ReaderAt) (size : ℕ) (md : NativeMetadata)
    → parse_native_metadata lower (some r) size ≡ ok md
    → All IsWellFormed md.modules
unfolding parse_native_metadata
parse_native_metadata-IsWellFormed lower r size md h =
    Parsed-IsWellFormed (read_minidump_bytes r size) (read_minidump_bytes-IsReading r size) lower md
      (parse_metadata_inv (read_minidump_bytes r size) lower size md h)
