-- ===== src/Minidump/Bounds.antt =====
-- What `ParseNativeMetadata` reads, and how much it can return.
use gopnique.Base.{
  ℕ, zero, suc, ◌+◌, ◌≤◌, ◌≡◌, ap, fun_ext, List, Option, some, arith, length, inl, inr,
}
use gopnique.Base.Result.{ok}
use gopnique.Domain.Native.{NativeModule}
use gopnique.Minidump.Layout.{Bytes, ReaderAt, read_minidump_bytes}
use gopnique.Minidump.Inversion.{
  Parsed, empty, streams, parse_minidump_modules-cases, parse_metadata_inv,
}
use gopnique.Minidump.Streams.{
  StreamDirectoryEntry, NativeMetadata, collect_modules, parse_minidump_modules,
  parse_minidump_frames, parse_metadata, parse_native_metadata,
}

read_minidump_bytes_agree :
    (r s : ReaderAt) (size : ℕ)
    → ((offset count : ℕ) → offset + count ≤ size → r.read_at offset count ≡ s.read_at offset count)
    → read_minidump_bytes r size ≡ read_minidump_bytes s size
unfolding read_minidump_bytes
read_minidump_bytes_agree r s size h =
    fun_ext λ offset. fun_ext λ count. ground (arith, h offset count)

-- Two readers that give the same bytes below the declared size give the same metadata: nothing is
-- read, and no failure is seen, at or beyond the declared size, whatever offsets the file holds.
pub parse_native_metadata_within :
    (lower : ℕ → ℕ) (r s : ReaderAt) (size : ℕ)
    → ((offset count : ℕ) → offset + count ≤ size → r.read_at offset count ≡ s.read_at offset count)
    → parse_native_metadata lower (some r) size ≡ parse_native_metadata lower (some s) size
unfolding parse_native_metadata
parse_native_metadata_within lower r s size h =
    ap (λ read. parse_metadata read lower size) (read_minidump_bytes_agree r s size h)

module _ (read : ℕ → ℕ → Option Bytes) (lower : ℕ → ℕ) where
  length-collect_modules :
      (entry : StreamDirectoryEntry) (index left : ℕ)
      → length (collect_modules read lower entry index left) ≤ left
  unfolding collect_modules
  length-collect_modules entry index zero = omega arith
  length-collect_modules entry index (suc left) =
      ground (arith, length-collect_modules entry (suc index) left)

  length-parse_minidump_modules :
      (entries : List StreamDirectoryEntry)
      → length (parse_minidump_modules read lower entries) ≤ 512
  length-parse_minidump_modules entries = elim (parse_minidump_modules-cases read lower entries) [
    | inl e ↦ rw e (omega arith)
    | inr s ↦ rw s.collected (omega (arith, length-collect_modules s.entry 0 s.count, s.few))
  ]

  length-parse_minidump_frames :
      (entries : List StreamDirectoryEntry) (modules : List NativeModule)
      → length (parse_minidump_frames read entries modules) ≤ 1
  unfolding parse_minidump_frames
  length-parse_minidump_frames entries modules = ground arith

  Parsed-bounds :
      (m : NativeMetadata) → Parsed read lower m → (length m.modules ≤ 512) × (length m.frames ≤ 1)
  Parsed-bounds m (empty e f) = (rw e (omega arith), rw f (omega arith))
  Parsed-bounds m (streams entries e f) = (
    rw e (length-parse_minidump_modules entries),
    rw f (length-parse_minidump_frames entries m.modules),
  )

-- Whatever counts an uploaded file declares, at most 512 modules and one frame come out of it.
pub parse_native_metadata_bounds :
    (lower : ℕ → ℕ) (r : ReaderAt) (size : ℕ) (m : NativeMetadata)
    → parse_native_metadata lower (some r) size ≡ ok m
    → (length m.modules ≤ 512) × (length m.frames ≤ 1)
unfolding parse_native_metadata
parse_native_metadata_bounds lower r size m h =
    Parsed-bounds (read_minidump_bytes r size) lower m
      (parse_metadata_inv (read_minidump_bytes r size) lower size m h)
