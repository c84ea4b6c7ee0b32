-- ===== src/Debugfiles/Table.antt =====
-- What a parsed symbol file holds.
use gopnique.Base.{
  ℕ, ◌+◌, ◌*◌, ◌^◌, ◌<◌, ◌≡◌, ◌≢◌, ◌⊎◌, inl, inr, refl, ap, subst, arith, List, [], ◌∷◌, Option,
  none, some, Bool-cases, Option-cases, All, All-append, ltb, leb, is_empty, length, if◌then◌else◌,
  get_elem?,
}
use gopnique.Base.Maybe.{>>=-eq-some}
use gopnique.Base.Result.{Result, ok, err, Result-cases}
use gopnique.Base.Text.{Text, has_prefix, codes, trim_space, byte_len, fields}
use gopnique.Domain.Native.{DebugIdentifier, new_debug_identifier}
use gopnique.Domain.Native.Canonical.{IsCanonical, new_debug_identifier_sound}
use gopnique.Debugfiles.Breakpad.{
  BreakpadFunction, BreakpadSymbols, no_symbols, parse_digits, parse_uint, parse_breakpad_hex,
  function_name, function_at, parse_breakpad_function, with_header, add_function, require_header,
  parse_breakpad_module, parse_line, parse_lines, parse_breakpad_symbols, is_word, max_line_bytes,
}

-- What `parseBreakpadFunction` lets into a table.
abbrev pub IsSound : BreakpadFunction → Type 0
IsSound f = (f.address < 2 ^ 64) × (f.size < 2 ^ 64) × (f.name ≢ [])

parse_digits-bound : (v : ℕ) (s : Text) (n : ℕ) → parse_digits v s ≡ some n → n < 2 ^ 64
unfolding parse_digits
parse_digits-bound v [] n h = ground arith
parse_digits-bound v (c ∷ s) n h =
    let (d, e, g) = >>=-eq-some _ (λ d. parse_digits (v * 16 + d) s) h in
    parse_digits-bound (v * 16 + d) s n g

parse_uint-bound : (s : Text) (n : ℕ) → parse_uint s ≡ some n → n < 2 ^ 64
parse_uint-bound [] n h = cc h
parse_uint-bound (c ∷ s) n h = parse_digits-bound 0 (c ∷ s) n h

parse_breakpad_hex-bound : (s : Text) (n : ℕ) → parse_breakpad_hex s ≡ some n → n < 2 ^ 64
unfolding parse_breakpad_hex
parse_breakpad_hex-bound s n h = parse_uint-bound _ n h

named : (s name : Text) → (if is_empty s then none else some s) ≡ some name → name ≢ []
named [] name h = cc h
named (c ∷ s) name h = λ e. cc (h, e)

function_at-IsSound :
    (offset : ℕ) (words : List Text) (f : BreakpadFunction)
    → function_at offset words ≡ some f
    → IsSound f
unfolding function_at
function_at-IsSound offset words f h = elim (Bool-cases (ltb (length words) (offset + 4))) [
  | inl e ↦ absurd (cc (rw e at h))
  | inr e ↦
      let (word, e1, h1) = >>=-eq-some (get_elem? words offset) _ (rw e at h) in
      let (address, e2, h2) = >>=-eq-some (parse_breakpad_hex word) _ h1 in
      let (word', e3, h3) = >>=-eq-some (get_elem? words (offset + 1)) _ h2 in
      let (size, e4, h4) = >>=-eq-some (parse_breakpad_hex word') _ h3 in
      let (name, e5, h5) = >>=-eq-some (function_name offset words) _ h4 in
      let same : record { address = address; size = size; name = name } ≡ f = ground arith in
      rw (← same) (
        parse_breakpad_hex-bound word address e2,
        parse_breakpad_hex-bound word' size e4,
        named _ name e5,
      )
]

parse_breakpad_function-IsSound :
    (line : Text) (f : BreakpadFunction) → parse_breakpad_function line ≡ some f → IsSound f
unfolding parse_breakpad_function
parse_breakpad_function-IsSound line f h = elim (Bool-cases (is_word 1 (codes "m") (fields line))) [
  | inl e ↦ function_at-IsSound 2 (fields line) f (rw e at h)
  | inr e ↦ function_at-IsSound 1 (fields line) f (rw e at h)
]

-- A table in the making: the header may still be missing.
abbrev IsTable : BreakpadSymbols → Type 0
IsTable s = ((s.debug_id.value ≡ []) ⊎ IsCanonical s.debug_id.value) × All IsSound s.functions

same-IsTable : (s t : BreakpadSymbols) → ok s ≡ ok t → IsTable s → IsTable t
same-IsTable s t h k = subst (λ w. elim w [ ok x ↦ IsTable x | err e ↦ Unit ]) h k

add_function-IsTable :
    (s : BreakpadSymbols) (o : Option BreakpadFunction)
    → ((f : BreakpadFunction) → o ≡ some f → IsSound f)
    → IsTable s
    → IsTable (add_function s o)
add_function-IsTable s none h t = t
add_function-IsTable s (some f) h t =
    (t.0, All-append IsSound s.functions (f ∷ []) t.1 (h f refl, tt))

with_header-IsTable :
    (s t : BreakpadSymbols) (words : List Text) (r : Result DebugIdentifier)
    → ((d : DebugIdentifier) → r ≡ ok d → IsCanonical d.value)
    → with_header s words r ≡ ok t
    → IsTable s
    → IsTable t
with_header-IsTable s t words (err e) c h k = cc h
with_header-IsTable s t words (ok d) c h k =
    let same : d ≡ t.debug_id = ground arith in
    let same' : s.functions ≡ t.functions = ground arith in
    (rw (← same) (inr (c d refl)), rw (← same') k.1)

parse_breakpad_module-IsTable :
    (lower : ℕ → ℕ) (s t : BreakpadSymbols) (line : Text)
    → parse_breakpad_module lower s line ≡ ok t
    → IsTable s
    → IsTable t
unfolding parse_breakpad_module
parse_breakpad_module-IsTable lower s t line h k =
    elim (Bool-cases (ltb (length (fields line)) 5)) [
      | inl e ↦ absurd (cc (rw e at h))
      | inr e ↦ elim (Option-cases (get_elem? (fields line) 3)) [
        | inl n ↦ absurd (cc (rw n at (rw e at h)))
        | inr (word, n) ↦
            with_header-IsTable s t (fields line) (new_debug_identifier lower word)
              (λ d g. (new_debug_identifier_sound lower word d g).0) (rw n at (rw e at h)) k
      ]
    ]

parse_line-IsTable :
    (lower : ℕ → ℕ) (s t : BreakpadSymbols) (raw : Text)
    → parse_line lower s raw ≡ ok t
    → IsTable s
    → IsTable t
unfolding parse_line
parse_line-IsTable lower s t raw h k =
    let line = trim_space raw in
    elim (Bool-cases (is_empty line)) [
      | inl e ↦ same-IsTable s t (rw e at h) k
      | inr e ↦ elim (Bool-cases (has_prefix (codes "MODULE ") line)) [
        | inl m ↦ parse_breakpad_module-IsTable lower s t line (rw m at (rw e at h)) k
        | inr m ↦ elim (Bool-cases (has_prefix (codes "FUNC ") line)) [
          | inl f ↦ same-IsTable _ t (rw f at (rw m at (rw e at h))) (
              add_function-IsTable s (parse_breakpad_function line)
                (parse_breakpad_function-IsSound line) k)
          | inr f ↦ same-IsTable s t (rw f at (rw m at (rw e at h))) k
        ]
      ]
    ]

parse_lines-IsTable :
    (lower : ℕ → ℕ) (s t : BreakpadSymbols) (lines : List Text)
    → parse_lines lower s lines ≡ ok t
    → IsTable s
    → IsTable t
unfolding parse_lines
parse_lines-IsTable lower s t [] h k = same-IsTable s t h k
parse_lines-IsTable lower s t (line ∷ lines) h k =
    elim (Bool-cases (leb max_line_bytes (byte_len line))) [
      | inl e ↦ absurd (cc (rw e at h))
      | inr e ↦ elim (Result-cases (parse_line lower s line)) [
        | inl (u, g) ↦
            parse_lines-IsTable lower u t lines (rw g at (rw e at h))
              (parse_line-IsTable lower s u line g k)
        | inr (m, g) ↦ absurd (cc (rw g at (rw e at h)))
      ]
    ]

required :
    (r : Result BreakpadSymbols) (t : BreakpadSymbols)
    → require_header r ≡ ok t
    → (r ≡ ok t) × (t.debug_id.value ≢ [])
required (err e) t h = cc h
required (ok s) t h = elim (Bool-cases (is_empty s.debug_id.value)) [
  | inl e ↦ absurd (cc (rw e at h))
  | inr e ↦
      let same : ok s ≡ ok t = rw e at h in
      (
        same,
        subst (λ w. elim w [ ok x ↦ x.debug_id.value ≢ [] | err m ↦ Unit ]) same
            (λ z. cc (e, ap is_empty z)),
      )
]

-- A symbol file that is accepted names a canonical debug identifier, and every function of its table
-- has an address and a size of a machine word and a name.
pub parse_breakpad_symbols-ok :
    (lower : ℕ → ℕ) (payload : Text) (t : BreakpadSymbols)
    → parse_breakpad_symbols lower payload ≡ ok t
    → IsCanonical t.debug_id.value × All IsSound t.functions
unfolding parse_breakpad_symbols
parse_breakpad_symbols-ok lower payload t h =
    let (parsed, present) = required _ t h in
    let k = parse_lines-IsTable lower no_symbols t _ parsed (inl refl, tt) in
    elim (k.0) [ inl e ↦ absurd (present e) | inr c ↦ (c, k.1) ]
