-- ===== src/Minidump/Crash.antt =====
-- The crashing frame: `parseMinidumpFrames` and the module that it is attributed to.
use gopnique.Base.{
  ℕ, ◌+◌, ◌≤◌, ◌<◌, ◌≡◌, refl, ◌⊎◌, inl, inr, true, false, List, [], ◌∷◌, ◌++◌, Option, none, some,
  arith, String, Bool-cases, Option-cases, All,
}
use gopnique.Base.Result.{ok, err, Result-cases}
use gopnique.Base.Text.{trim_space, trim_left, trim_right}
use gopnique.Domain.Native.{
  NativeModule, NativeFrame, new_native_frame, new_native_frame_with_module,
  normalize_native_function, normalize_native_package,
}
use gopnique.Minidump.Layout.{Bytes}
use gopnique.Minidump.Streams.{
  StreamDirectoryEntry, parse_minidump_frames, parse_minidump_exception_instruction,
  minidump_module_for_instruction_addr, minidump_module_contains_instruction_addr,
}

-- The half-open address range of a module; a module of size 0 is its base address alone.
abbrev pub Contains : NativeModule → ℕ → Type 0
Contains m a =
    (m.image_addr ≤ a)
    × ((a < m.image_addr + m.image_size) ⊎ ((m.image_size ≡ 0) × (a ≡ m.image_addr)))

contains→Contains :
    (m : NativeModule) (a : ℕ) → minidump_module_contains_instruction_addr m a ≡ true → Contains m a
unfolding minidump_module_contains_instruction_addr
contains→Contains m a h = ground arith

Contains-false :
    (m : NativeModule) (a : ℕ)
    → minidump_module_contains_instruction_addr m a ≡ false
    → ¬ (Contains m a)
unfolding minidump_module_contains_instruction_addr
Contains-false m a h c = ground arith

-- The first module of the list that holds the address.
pub record FirstHolding (ms : List NativeModule) (a : ℕ) (m : NativeModule) : Type 0 where
  pub before : List NativeModule
  pub after : List NativeModule
  pub splits : ms ≡ before ++ m ∷ after
  pub holds : Contains m a
  pub earlier : All (λ k. ¬ (Contains k a)) before

pub module_for-FirstHolding :
    (ms : List NativeModule) (a : ℕ) (m : NativeModule)
    → minidump_module_for_instruction_addr ms a ≡ some m
    → FirstHolding ms a m
unfolding minidump_module_for_instruction_addr
module_for-FirstHolding [] a m h = cc
module_for-FirstHolding (k ∷ ms) a m h =
    elim (Bool-cases (minidump_module_contains_instruction_addr k a)) [
      | inl e ↦
          let same : k ≡ m = ground arith in
          record {
            before = [];
            after = ms;
            splits = cc same;
            holds = rw (← same) (contains→Contains k a e);
            earlier = tt;
          }
      | inr e ↦
          let ih = module_for-FirstHolding ms a m (rw e at h) in
          record {
            before = k ∷ ih.before;
            after = ih.after;
            splits = cc ih.splits;
            holds = ih.holds;
            earlier = (Contains-false k a e, ih.earlier);
          }
    ]

pub module_for-none :
    (ms : List NativeModule) (a : ℕ)
    → minidump_module_for_instruction_addr ms a ≡ none
    → All (λ k. ¬ (Contains k a)) ms
unfolding minidump_module_for_instruction_addr
module_for-none [] a h = tt
module_for-none (k ∷ ms) a h = elim (Bool-cases (minidump_module_contains_instruction_addr k a)) [
  | inl e ↦ absurd (cc (rw e at h))
  | inr e ↦ (Contains-false k a e, module_for-none ms a (rw e at h))
]

-- Why a frame carries a module, or none.
pub data Attribution (ms : List NativeModule) (a : ℕ) (f : NativeFrame) : Type 0 where
  attributed :
      (m : NativeModule)
      → FirstHolding ms a m
      → f.has_module ≡ true
      → f.module_debug_id ≡ m.debug_id
      → normalize_native_package m.code_file ≡ ok f.pkg
      → Attribution ms a f
  outside_all : All (λ k. ¬ (Contains k a)) ms → f.has_module ≡ false → Attribution ms a f
  refused :
      (m : NativeModule) (e : String)
      → FirstHolding ms a m
      → new_native_frame_with_module a m.debug_id [] m.code_file ≡ err e
      → f.has_module ≡ false
      → Attribution ms a f

abbrev plain : ℕ → NativeFrame
plain a = record {
  instruction_addr = a;
  module_debug_id = record { value = [] };
  has_module = false;
  function = [];
  pkg = [];
}

new_native_frame-plain : (a : ℕ) → new_native_frame a [] [] ≡ ok (plain a)
unfolding new_native_frame normalize_native_function normalize_native_package trim_space trim_left
    trim_right
new_native_frame-plain a = refl

with_module_inv :
    (a : ℕ) (m : NativeModule) (f : NativeFrame)
    → new_native_frame_with_module a m.debug_id [] m.code_file ≡ ok f
    → (f.instruction_addr ≡ a)
      × (f.has_module ≡ true)
      × (f.module_debug_id ≡ m.debug_id)
      × (normalize_native_package m.code_file ≡ ok f.pkg)
unfolding new_native_frame_with_module new_native_frame normalize_native_function trim_space
    trim_left trim_right
with_module_inv a m f h = ground arith

-- When the exception record names an instruction, there is exactly one frame and it is at that
-- instruction. It carries the debug identifier and the code file of the first module whose address
-- range holds the instruction, and no module only if no range holds it or that module's values are
-- refused by the checks on frames.
pub parse_minidump_frames-some :
    (read : ℕ → ℕ → Option Bytes) (entries : List StreamDirectoryEntry) (ms : List NativeModule)
    (a : ℕ)
    → parse_minidump_exception_instruction read entries ≡ some a
    → (f : NativeFrame) × (parse_minidump_frames read entries ms ≡ f ∷ [])
      × (f.instruction_addr ≡ a)
      × Attribution ms a f
unfolding parse_minidump_frames
parse_minidump_frames-some read entries ms a h =
    elim (Option-cases (minidump_module_for_instruction_addr ms a)) [
      | inl e ↦ (
        plain a,
        rw (h, parse_minidump_frames) (rw e (rw (new_native_frame-plain a))),
        refl,
        outside_all (module_for-none ms a e) refl,
      )
      | inr (m, e) ↦
          elim (Result-cases (new_native_frame_with_module a m.debug_id [] m.code_file)) [
            | inl (f, g) ↦
                let (at_, has, id_, pkg) = with_module_inv a m f g in
                (
                  f,
                  rw (h, parse_minidump_frames) (rw e (rw g)),
                  at_,
                  attributed m (module_for-FirstHolding ms a m e) has id_ pkg,
                )
            | inr (msg, g) ↦ (
              plain a,
              rw (h, parse_minidump_frames) (rw e (rw g (rw (new_native_frame-plain a)))),
              refl,
              refused m msg (module_for-FirstHolding ms a m e) g refl,
            )
          ]
    ]

-- Without such an instruction there is no frame.
pub parse_minidump_frames-none :
    (read : ℕ → ℕ → Option Bytes) (entries : List StreamDirectoryEntry) (ms : List NativeModule)
    → parse_minidump_exception_instruction read entries ≡ none
    → parse_minidump_frames read entries ms ≡ []
unfolding parse_minidump_frames
parse_minidump_frames-none read entries ms h = rw (h, parse_minidump_frames)
