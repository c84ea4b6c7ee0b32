-- ===== src/Minidump/Inversion.antt =====
-- How a result of `ParseNativeMetadata` and of `parseMinidumpModules` came about.
use gopnique.Base.{
  ℕ, ◌≤◌, ◌≡◌, ◌⊎◌, inl, inr, List, [], Option, some, arith, ltb, ◌==◌, Bool-cases, Option-cases,
}
use gopnique.Base.Result.{ok}
use gopnique.Base.Text.{text_eq}
use gopnique.Minidump.Layout.{Bytes, read_minidump_uint32}
use gopnique.Minidump.Streams.{
  StreamDirectoryEntry, NativeMetadata, collect_modules, parse_minidump_modules,
  find_minidump_stream, parse_minidump_frames, read_minidump_directory, parse_metadata,
  minidump_magic, minidump_module_list_stream,
}

module _ (read : ℕ → ℕ → Option Bytes) (lower : ℕ → ℕ) where
  pub record FromStream (entries : List StreamDirectoryEntry) : Type 0 where
    pub entry : StreamDirectoryEntry
    pub count : ℕ
    pub found : find_minidump_stream entries minidump_module_list_stream ≡ some entry
    pub few : count ≤ 512
    pub collected :
        parse_minidump_modules read lower entries ≡ collect_modules read lower entry 0 count

  counted :
      (entries : List StreamDirectoryEntry) (entry : StreamDirectoryEntry) (n : ℕ)
      → find_minidump_stream entries minidump_module_list_stream ≡ some entry
      → read_minidump_uint32 read entry.rva ≡ some n
      → (parse_minidump_modules read lower entries ≡ []) ⊎ FromStream entries
  unfolding parse_minidump_modules
  counted entries entry n e f = elim (Bool-cases (n == 0)) [
    | inl p ↦ inl (rw (e, parse_minidump_modules) (rw f (rw p)))
    | inr p ↦ elim (Bool-cases (ltb 512 n)) [
      | inl q ↦ inl (rw (e, parse_minidump_modules) (rw f (rw (p, q))))
      | inr q ↦ inr (record {
        entry = entry;
        count = n;
        found = e;
        few = ground arith;
        collected = rw (e, parse_minidump_modules) (rw f (rw (p, q)));
      })
    ]
  ]

  pub parse_minidump_modules-cases :
      (entries : List StreamDirectoryEntry)
      → (parse_minidump_modules read lower entries ≡ []) ⊎ FromStream entries
  unfolding parse_minidump_modules
  parse_minidump_modules-cases entries =
      elim (Option-cases (find_minidump_stream entries minidump_module_list_stream)) [
        | inl e ↦ inl (rw (e, parse_minidump_modules))
        | inr (entry, e) ↦ elim (Option-cases (read_minidump_uint32 read entry.rva)) [
          | inl f ↦ inl (rw (e, parse_minidump_modules) (rw f))
          | inr (n, f) ↦ counted entries entry n e f
        ]
      ]

  -- Nothing was found, or the streams of a directory were read.
  pub data Parsed (m : NativeMetadata) : Type 0 where
    empty : m.modules ≡ [] → m.frames ≡ [] → Parsed m
    streams :
        (entries : List StreamDirectoryEntry)
        → m.modules ≡ parse_minidump_modules read lower entries
        → m.frames ≡ parse_minidump_frames read entries m.modules
        → Parsed m

  pub parse_metadata_inv :
      (size : ℕ) (m : NativeMetadata) → parse_metadata read lower size ≡ ok m → Parsed m
  unfolding parse_metadata
  parse_metadata_inv size m h = elim (Option-cases (read 0 4)) [
    | inl e ↦ absurd (cc (rw (e, parse_metadata) at h))
    | inr (prefix, e) ↦ elim (Bool-cases (text_eq prefix minidump_magic)) [
      | inr f ↦ absurd (cc (rw f at (rw (e, parse_metadata) at h)))
      | inl f ↦ elim (Option-cases (read_minidump_directory read size)) [
        | inl g ↦
            let k = rw g at (rw f at (rw (e, parse_metadata) at h)) in
            empty (ground arith) (ground arith)
        | inr (entries, g) ↦
            let k = rw g at (rw f at (rw (e, parse_metadata) at h)) in
            streams entries (ground arith) (ground arith)
      ]
    ]
  ]
