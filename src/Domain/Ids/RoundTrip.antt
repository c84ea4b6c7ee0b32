-- ===== src/Domain/Ids/RoundTrip.antt =====
-- An identifier is read back from its dashed text.
use gopnique.Base.{
  ℕ, zero, suc, ◌≤◌, ◌≡◌, refl, ap, sym, ◌∙◌, arith, true, false, [], ◌∷◌, ◌++◌, length, take, drop,
  all, All, All-append, All-take, All-drop, take_all, drop-drop, length-drop, ◌⊎◌, inl, inr,
}
use gopnique.Base.Result.{ok}
use gopnique.Base.Text.{Text, to_lower, remove_all, join, is_space}
use gopnique.Base.Text.Laws.{trim_space_lem}
use gopnique.Domain.Native.{is_hex_digit}
use gopnique.Domain.Native.Canonical.{IsHex, IsHex-all}
use gopnique.Domain.Ids.{is_uuid_hex, normalize_uuid, dashed_uuid}

take-append-drop : (n : ℕ) (s : Text) → take n s ++ drop n s ≡ s
take-append-drop zero s = refl
take-append-drop (suc n) [] = refl
take-append-drop (suc n) (c ∷ s) = ap (λ t. c ∷ t) (take-append-drop n s)

-- a digit or a dash
abbrev IsPart : ℕ → Type 0
IsPart c = IsHex c ⊎ (c ≡ b'-')

parts : (s : Text) → All IsHex s → All IsPart s
parts [] h = tt
parts (c ∷ s) h = (inl h.0, parts s h.1)

IsPart-is_space : (c : ℕ) → IsPart c → is_space c ≡ false
unfolding is_space is_hex_digit
IsPart-is_space c h = ground arith

no_space : (s : Text) → All IsPart s → All (λ c. is_space c ≡ false) s
no_space [] h = tt
no_space (c ∷ s) h = (IsPart-is_space c h.0, no_space s h.1)

to_lower-parts : (lower : ℕ → ℕ) (s : Text) → All IsPart s → to_lower lower s ≡ s
unfolding to_lower is_hex_digit
to_lower-parts lower [] h = refl
to_lower-parts lower (c ∷ s) h = ground (arith, to_lower-parts lower s h.1, h.0)

remove_all-part :
    (s rest : Text) → All IsHex s → remove_all b'-' (s ++ rest) ≡ s ++ remove_all b'-' rest
unfolding remove_all is_hex_digit
remove_all-part [] rest h = refl
remove_all-part (c ∷ s) rest h = ground (arith, remove_all-part s rest h.1, h.0)

remove_all-dash :
    (s rest : Text) → All IsHex s → remove_all b'-' (s ++ b'-' ∷ rest) ≡ s ++ remove_all b'-' rest
unfolding remove_all
remove_all-dash s rest h = remove_all-part s (b'-' ∷ rest) h

remove_all-last : (s : Text) → All IsHex s → remove_all b'-' s ≡ s
unfolding remove_all is_hex_digit
remove_all-last [] h = refl
remove_all-last (c ∷ s) h = ground (arith, remove_all-last s h.1, h.0)

-- four dashes between parts go again
undashed :
    (a b c d e : Text)
    → All IsHex a
    → All IsHex b
    → All IsHex c
    → All IsHex d
    → All IsHex e
    → remove_all b'-' (join b'-' (a ∷ b ∷ c ∷ d ∷ e ∷ [])) ≡ a ++ (b ++ (c ++ (d ++ e)))
unfolding join
undashed a b c d e ha hb hc hd he = rw (remove_all-dash a _ ha) (
    rw (remove_all-dash b _ hb)
      (rw (remove_all-dash c _ hc) (rw (remove_all-dash d _ hd) (rw (remove_all-last e he) refl))))

dashed-parts :
    (a b c d e : Text)
    → All IsHex a
    → All IsHex b
    → All IsHex c
    → All IsHex d
    → All IsHex e
    → All IsPart (join b'-' (a ∷ b ∷ c ∷ d ∷ e ∷ []))
unfolding join
dashed-parts a b c d e ha hb hc hd he =
    let one = λ (s : Text) (t : Text) (h : All IsHex s) (k : All IsPart t).
      All-append IsPart s (b'-' ∷ t) (parts s h) (inr refl, k) in
    one a _ ha (one b _ hb (one c _ hc (one d _ hd (parts e he))))

joined :
    (v : Text)
    → length v ≡ 32
    → take 8 v
        ++ (take 4 (drop 8 v)
            ++ (take 4 (drop 12 v) ++ (take 4 (drop 16 v) ++ take 12 (drop 20 v))))
      ≡ v
joined v h =
    let short : length (drop 20 v) ≤ 12 = omega (arith, length-drop 20 v) in
    rw (take_all 12 (drop 20 v) short) (
      rw (← drop-drop 4 16 v) (
        rw (take-append-drop 4 (drop 16 v)) (
          rw (← drop-drop 4 12 v) (
            rw (take-append-drop 4 (drop 12 v)) (
              rw (← drop-drop 4 8 v)
                (rw (take-append-drop 4 (drop 8 v)) (take-append-drop 8 v)))))))

IsHex-take : (m n : ℕ) (v : Text) → All IsHex v → All IsHex (take m (drop n v))
IsHex-take m n v k = All-take IsHex m (drop n v) (All-drop IsHex n v k)

undashed_uuid : (v : Text) → length v ≡ 32 → All IsHex v → remove_all b'-' (dashed_uuid v) ≡ v
unfolding dashed_uuid
undashed_uuid [] h k = absurd (omega (arith, h))
undashed_uuid (x ∷ v) h k =
    undashed _ _ _ _ _ (All-take IsHex 8 (x ∷ v) k) (IsHex-take 4 8 (x ∷ v) k)
      (IsHex-take 4 12 (x ∷ v) k) (IsHex-take 4 16 (x ∷ v) k) (IsHex-take 12 20 (x ∷ v) k)
    ∙ joined (x ∷ v) h

dashed_uuid-parts : (v : Text) → All IsHex v → All IsPart (dashed_uuid v)
unfolding dashed_uuid
dashed_uuid-parts [] k = tt
dashed_uuid-parts (x ∷ v) k =
    dashed-parts _ _ _ _ _ (All-take IsHex 8 (x ∷ v) k) (IsHex-take 4 8 (x ∷ v) k)
      (IsHex-take 4 12 (x ∷ v) k) (IsHex-take 4 16 (x ∷ v) k) (IsHex-take 12 20 (x ∷ v) k)

is_uuid_hex-inv : (v : Text) → is_uuid_hex v ≡ true → (length v ≡ 32) × All IsHex v
unfolding is_uuid_hex
is_uuid_hex-inv v h =
    let (n, a) : (length v ≡ 32) × (all is_hex_digit v ≡ true) = ground arith in (n, IsHex-all v a)

accepted :
    (lower : ℕ → ℕ) (input v : Text) → normalize_uuid lower input ≡ ok v → is_uuid_hex v ≡ true
unfolding normalize_uuid
accepted lower input v h = ground arith

-- The text that an identifier is written with, its dashes included, is accepted as the same
-- identifier.
pub normalize_uuid-dashed_uuid :
    (lower : ℕ → ℕ) (input v : Text)
    → normalize_uuid lower input ≡ ok v
    → normalize_uuid lower (dashed_uuid v) ≡ ok v
unfolding normalize_uuid
normalize_uuid-dashed_uuid lower input v h =
    let valid = accepted lower input v h in
    let (n, k) = is_uuid_hex-inv v valid in
    let p = dashed_uuid-parts v k in
    rw (trim_space_lem (dashed_uuid v) (no_space (dashed_uuid v) p))
      (rw (to_lower-parts lower (dashed_uuid v) p) (rw (undashed_uuid v n k) (rw valid refl)))

-- Two identifiers with the same dashed text are the same.
pub dashed_uuid_inj :
    (v w : Text)
    → is_uuid_hex v ≡ true
    → is_uuid_hex w ≡ true
    → dashed_uuid v ≡ dashed_uuid w
    → v ≡ w
dashed_uuid_inj v w hv hw e =
    let (n, k) = is_uuid_hex-inv v hv in
    let (n', k') = is_uuid_hex-inv w hw in
    sym (undashed_uuid v n k) ∙ (ap (remove_all b'-') e ∙ undashed_uuid w n' k')
