-- ===== src/Debugfiles/Offsets.antt =====
-- Where the address of a frame lies in its module.
use gopnique.Base.{
  ℕ, ◌+◌, ◌<◌, ◌≡◌, ◌⊎◌, inl, inr, refl, ap, ◌++◌, All, arith, false, List, [], ◌∷◌, none, some,
  Bool-cases,
}
use gopnique.Base.Text.{text_eq}
use gopnique.Base.Text.Laws.{text_eq→eq}
use gopnique.Domain.Native.{DebugIdentifier, NativeModule, NativeFrame}
use gopnique.Debugfiles.Apply.{native_module_for_debug_id, native_instruction_offset}

-- The offset of a frame in its module lies in the image; without a module it is the address.
pub native_instruction_offset-some :
    (frame : NativeFrame) (m : NativeModule) (offset : ℕ)
    → native_instruction_offset frame (some m) ≡ some offset
    → (frame.instruction_addr ≡ m.image_addr + offset)
      × ((m.image_size ≡ 0) ⊎ (offset < m.image_size))
unfolding native_instruction_offset
native_instruction_offset-some frame m offset h = ground arith

-- The offset of a frame's address: from the start of the image of the first module with its
-- identifier, inside the image where its size is known; or the address itself where no module has it.
abbrev pub IsLocated : List NativeModule → NativeFrame → ℕ → Type 0
IsLocated modules frame offset =
    (All (λ m. text_eq m.debug_id.value frame.module_debug_id.value ≡ false) modules
      × (offset ≡ frame.instruction_addr))
    ⊎ ((m : NativeModule) × (before : List NativeModule) × (after : List NativeModule) × (modules
          ≡ before ++ m ∷ after)
        × (m.debug_id.value ≡ frame.module_debug_id.value)
        × All (λ k. text_eq k.debug_id.value frame.module_debug_id.value ≡ false) before
        × (frame.instruction_addr ≡ m.image_addr + offset)
        × ((m.image_size ≡ 0) ⊎ (offset < m.image_size)))

native_module_for_debug_id_first :
    (modules : List NativeModule) (id_ : DebugIdentifier)
    → ((native_module_for_debug_id modules id_ ≡ none)
        × All (λ m. text_eq m.debug_id.value id_.value ≡ false) modules)
      ⊎ ((m : NativeModule) × (before : List NativeModule) × (after : List NativeModule)
          × (native_module_for_debug_id modules id_ ≡ some m)
          × (modules ≡ before ++ m ∷ after)
          × (m.debug_id.value ≡ id_.value)
          × All (λ k. text_eq k.debug_id.value id_.value ≡ false) before)
unfolding native_module_for_debug_id
native_module_for_debug_id_first [] id_ = inl (refl, tt)
native_module_for_debug_id_first (k ∷ modules) id_ =
    elim (Bool-cases (text_eq k.debug_id.value id_.value)) [
      | inl e ↦ inr (k, [], modules, rw e refl, refl, text_eq→eq _ _ e, tt)
      | inr e ↦ elim (native_module_for_debug_id_first modules id_) [
        | inl (h, away) ↦ inl (rw e h, (e, away))
        | inr (m, before, after, h, splits, same, away) ↦
            inr (m, k ∷ before, after, rw e h, ap (λ t. k ∷ t) splits, same, (e, away))
      ]
    ]

pub native_instruction_offset-IsLocated :
    (modules : List NativeModule) (frame : NativeFrame) (offset : ℕ)
    → native_instruction_offset frame (native_module_for_debug_id modules frame.module_debug_id)
      ≡ some offset
    → IsLocated modules frame offset
unfolding native_instruction_offset
native_instruction_offset-IsLocated modules frame offset h =
    elim (native_module_for_debug_id_first modules frame.module_debug_id) [
      | inl (e, away) ↦
          let plain : some frame.instruction_addr ≡ some offset = rw e at h in inl (away, cc plain)
      | inr (m, before, after, e, splits, same, away) ↦
          let (at_, inside) = native_instruction_offset-some frame m offset (rw e at h) in
          inr (m, before, after, splits, same, away, at_, inside)
    ]
