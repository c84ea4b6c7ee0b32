-- ===== src/Debugfiles/Frames.antt =====
-- What symbolication does to the frames of an event.
use gopnique.Base.{
  ℕ, ◌≡◌, inl, inr, refl, sym, ap, subst, ◌∙◌, ◌++◌, All, is_empty, arith, Bool, true, false, List,
  [], ◌∷◌, Option, none, some, Bool-cases, Option-cases, if◌then◌else◌,
}
use gopnique.Base.Result.{Result, ok, err, Result-cases, >>=-eq-ok, reject_if}
use gopnique.Base.Text.{Text, text_eq, trim_space}
use gopnique.Base.Text.Laws.{text_eq→eq}
use gopnique.Domain.Native.{
  DebugIdentifier, NativeModule, NativeFrame, new_native_frame_with_module, new_native_frame,
  normalize_native_function, normalize_native_package,
}
use gopnique.Debugfiles.Breakpad.{BreakpadFunction, BreakpadSymbols, lookup}
use gopnique.Debugfiles.Lookup.{Covers, lookup_first}
use gopnique.Debugfiles.Offsets.{IsLocated, native_instruction_offset-IsLocated}
use gopnique.Debugfiles.Apply.{
  native_module_for_debug_id, native_frame_package, to_option, symbol_at, with_function,
  symbolicate_single_frame, apply_to_frames, open_breakpad_symbols, find_in, find_breakpad_symbols,
}

module _ (lower : ℕ → ℕ) {Key : Type 0} (list_artifacts : Result (List Key))
    (get_artifact : Key → Result Text) where
  find_in-ok :
      (keys : List Key) (id_ : DebugIdentifier) (symbols : BreakpadSymbols)
      → find_in lower list_artifacts get_artifact keys id_ ≡ ok symbols
      → symbols.debug_id.value ≡ id_.value
  unfolding find_in
  find_in-ok [] id_ symbols h = cc h
  find_in-ok (key ∷ keys) id_ symbols h =
      elim (Result-cases (open_breakpad_symbols lower list_artifacts get_artifact key)) [
        | inr (m, e) ↦ find_in-ok keys id_ symbols (rw (e, find_in) at h)
        | inl (s, e) ↦ elim (Bool-cases (text_eq s.debug_id.value id_.value)) [
          | inl t ↦
              let same : ok s ≡ ok symbols = rw t at (rw (e, find_in) at h) in
              subst (λ w. elim w [ ok x ↦ x.debug_id.value ≡ id_.value | err m ↦ Unit ]) same
                (text_eq→eq s.debug_id.value id_.value t)
          | inr t ↦ find_in-ok keys id_ symbols (rw t at (rw (e, find_in) at h))
        ]
      ]

  -- Symbols that are found for an identifier are of a file that names it, whichever files of the
  -- project are broken or name others.
  pub find_breakpad_symbols-ok :
      (id_ : DebugIdentifier) (symbols : BreakpadSymbols)
      → find_breakpad_symbols lower list_artifacts get_artifact id_ ≡ ok symbols
      → symbols.debug_id.value ≡ id_.value
  unfolding find_breakpad_symbols
  find_breakpad_symbols-ok id_ symbols h = elim (Result-cases list_artifacts) [
    | inl (keys, e) ↦ find_in-ok keys id_ symbols (rw (e, find_breakpad_symbols) at h)
    | inr (m, e) ↦ absurd (cc (rw (e, find_breakpad_symbols) at h))
  ]

-- What stays of a frame: its address, the module that it is attributed to, and a package that it
-- has.
pub record IsKept (frame updated : NativeFrame) : Type 0 where
  pub address : updated.instruction_addr ≡ frame.instruction_addr
  pub attribution : updated.has_module ≡ frame.has_module
  pub identifier : updated.module_debug_id ≡ frame.module_debug_id

abbrev pub AllKept : List NativeFrame → List NativeFrame → Type 0
AllKept [] [] = Unit
AllKept (f ∷ fs) (g ∷ gs) = IsKept f g × AllKept fs gs
AllKept [] (g ∷ gs) = ⊥
AllKept (f ∷ fs) [] = ⊥

IsKept-self : (frame : NativeFrame) → IsKept frame frame
IsKept-self frame = record { address = refl; attribution = refl; identifier = refl }

with_module_ok :
    (a : ℕ) (d : DebugIdentifier) (function pkg : Text) (f : NativeFrame)
    → new_native_frame_with_module a d function pkg ≡ ok f
    → (f.instruction_addr ≡ a) × (f.has_module ≡ true) × (f.module_debug_id ≡ d)
unfolding new_native_frame_with_module new_native_frame
with_module_ok a d function pkg f h = ground arith

to_option-some : (r : Result NativeFrame) (f : NativeFrame) → to_option r ≡ some f → r ≡ ok f
to_option-some (ok g) f h = ap ok (ground arith)
to_option-some (err e) f h = cc h

if-some :
    {A : Type 0} (b : Bool) (o : Option A) (a : A)
    → (if b then o else none) ≡ some a
    → (b ≡ true) × (o ≡ some a)
if-some true o a h = (refl, h)
if-some false o a h = cc h

normalize_native_function-ok :
    (input function : Text)
    → normalize_native_function input ≡ ok function
    → function ≡ trim_space input
unfolding normalize_native_function
normalize_native_function-ok input function h = ground arith

with_module-function :
    (a : ℕ) (d : DebugIdentifier) (function pkg : Text) (f : NativeFrame)
    → new_native_frame_with_module a d function pkg ≡ ok f
    → f.function ≡ trim_space function
unfolding new_native_frame_with_module new_native_frame
with_module-function a d function pkg f h =
    let (u, e0, h0) =
      >>=-eq-ok (reject_if (is_empty d.value) "native frame module debug identifier is required") _
        h in
    let (frame, e1, h1) = >>=-eq-ok (new_native_frame a function pkg) _ h0 in
    let (name, e2, h2) = >>=-eq-ok (normalize_native_function function) _ e1 in
    let (place, e3, h3) = >>=-eq-ok (normalize_native_package pkg) _ h2 in
    let named = normalize_native_function-ok function name e2 in cc (named, h1, h3)

-- How a frame that symbolication changes stands to the frame that was there: the name is that of the
-- first function, in the symbols found for its module, whose range holds its offset.
pub record IsSymbolicated (find : DebugIdentifier → Result BreakpadSymbols)
    (modules : List NativeModule) (frame updated : NativeFrame) : Type 0 where
  pub kept : IsKept frame updated
  pub had_module : frame.has_module ≡ true
  pub offset : ℕ
  pub located : IsLocated modules frame offset
  pub symbols : BreakpadSymbols
  pub found : find frame.module_debug_id ≡ ok symbols
  pub named_by : BreakpadFunction
  pub before : List BreakpadFunction
  pub after : List BreakpadFunction
  pub splits : symbols.functions ≡ before ++ named_by ∷ after
  pub covers : Covers named_by offset
  pub first : All (λ g. ¬ (Covers g offset)) before
  pub function : updated.function ≡ trim_space named_by.name

module _ (find : DebugIdentifier → Result BreakpadSymbols) where
  symbol_at-some :
      (id_ : DebugIdentifier) (o : Option ℕ) (function : Text)
      → symbol_at find id_ o ≡ some function
      → (offset : ℕ) × (symbols : BreakpadSymbols) × (o ≡ some offset)
        × (find id_ ≡ ok symbols)
        × (lookup symbols.functions offset ≡ some function)
  symbol_at-some id_ none function h = cc h
  symbol_at-some id_ (some offset) function h = elim (Result-cases (find id_)) [
    | inl (symbols, e) ↦ (offset, symbols, refl, e, rw (e, symbol_at) at h)
    | inr (m, e) ↦ absurd (cc (rw (e, symbol_at) at h))
  ]

  with_function-some :
      (frame : NativeFrame) (m : Option NativeModule) (o : Option Text) (updated : NativeFrame)
      → with_function find frame m o ≡ some updated
      → (function : Text) × (o ≡ some function)
        × (new_native_frame_with_module frame.instruction_addr frame.module_debug_id function
              (native_frame_package frame m)
            ≡ ok updated)
  with_function-some frame m none updated h = cc h
  with_function-some frame m (some function) updated h =
      (function, refl, to_option-some _ updated h)

  -- A frame that changes had a module, and keeps it and its address. Its new function is the trimmed
  -- name of the first function whose range holds the frame's offset, in the symbols that were found
  -- for the module's identifier; the offset counts from the start of the image of the first module of
  -- the event with that identifier, and lies inside the image where its size is known, or it is the
  -- address where the event names no such module.
  pub symbolicate_single_frame-some :
      (modules : List NativeModule) (frame updated : NativeFrame)
      → symbolicate_single_frame find modules frame ≡ some updated
      → IsSymbolicated find modules frame updated
  unfolding symbolicate_single_frame
  symbolicate_single_frame-some modules frame updated h =
      let m = native_module_for_debug_id modules frame.module_debug_id in
      let (has, h1) = if-some frame.has_module _ updated h in
      let (function, e1, e2) = with_function-some frame m _ updated h1 in
      let (offset, symbols, e3, e4, e5) = symbol_at-some frame.module_debug_id _ function e1 in
      let (a, b, c) = with_module_ok _ _ function _ updated e2 in
      elim (lookup_first symbols.functions offset) [
        | inl (nothing, away) ↦ absurd (cc (nothing, e5))
        | inr (f, before, after, looked, splits, covers, away) ↦
            let name : f.name ≡ function = cc (looked, e5) in
            record {
              kept = record { address = a; attribution = b ∙ sym has; identifier = c };
              had_module = has;
              offset = offset;
              located = native_instruction_offset-IsLocated modules frame offset e3;
              symbols = symbols;
              found = e4;
              named_by = f;
              before = before;
              after = after;
              splits = splits;
              covers = covers;
              first = away;
              function = with_module-function _ _ function _ updated e2 ∙ ap trim_space (sym name);
            }
      ]

  symbolicate_single_frame-IsKept :
      (modules : List NativeModule) (frame updated : NativeFrame)
      → symbolicate_single_frame find modules frame ≡ some updated
      → IsKept frame updated
  symbolicate_single_frame-IsKept modules frame updated h =
      (symbolicate_single_frame-some modules frame updated h).kept

  -- Symbolication neither adds, drops nor reorders frames: each keeps its address and the module that
  -- it is attributed to, whatever the stored files say.
  pub apply_to_frames-AllKept :
      (modules : List NativeModule) (frames : List NativeFrame)
      → AllKept frames (apply_to_frames find modules frames)
  unfolding apply_to_frames
  apply_to_frames-AllKept modules [] = tt
  apply_to_frames-AllKept modules (frame ∷ frames) =
      elim (Option-cases (symbolicate_single_frame find modules frame)) [
        | inl e ↦
            rw (e, apply_to_frames) (IsKept-self frame, apply_to_frames-AllKept modules frames)
        | inr (updated, e) ↦
            rw (e, apply_to_frames)
              (
                symbolicate_single_frame-IsKept modules frame updated e,
                apply_to_frames-AllKept modules frames,
              )
      ]
