-- ===== src/Privacy/Store/Keys.antt =====
-- privacy/store/pebble.go: the values and keys of the database.
use ao_eo.Base.{
  ℕ, ◌%◌, ◌^◌, ◌<◌, ◌≡◌, ◌≢◌, refl, ap, ◌↔◌, true, false, [], ◌∷◌, ◌++◌, arith, Text, length, ltb,
}
use ao_eo.Privacy.Store.{big_endian, from_bytes, encode_value, decode_value, key_in, text_eq}

from_bytes-big_endian : (t : ℕ) → t < 2 ^ 64 → from_bytes 0 (big_endian t) ≡ t
unfolding from_bytes
from_bytes-big_endian t h = omega arith

encoded_long : (t : ℕ) (v : Text) → ltb (length (big_endian t ++ v)) 8 ≡ false
encoded_long t v = ground arith

-- A value is read back with its time, as long as that is below 2 ^ 64 nanoseconds.
pub decode_value-encode_value :
    (t : ℕ) (v : Text) → t < 2 ^ 64 → decode_value (encode_value t v) ≡ (t, v)
unfolding decode_value encode_value
decode_value-encode_value t v h =
    let small : t % 2 ^ 64 ≡ t = omega arith in
    rw (small, encoded_long t v) (ap (λ n. (n, v)) (from_bytes-big_endian t h))

pub text_eq_iff : (s t : Text) → (text_eq s t ≡ true) ↔ (s ≡ t)
text_eq_iff [] [] = (λ h. refl, λ h. refl)
text_eq_iff [] (d ∷ t) = (λ h. cc, λ h. cc)
text_eq_iff (c ∷ s) [] = (λ h. cc, λ h. cc)
text_eq_iff (c ∷ s) (d ∷ t) = let rest = text_eq_iff s t in ground (arith, rest)

-- No colon
abbrev pub NoColon : Text → Type 0
NoColon [] = Unit {0}
NoColon (c ∷ s) = (c ≢ b':') × NoColon s

-- Texts without a colon end at the first colon.
colon_inj :
    (s s' t t' : Text)
    → NoColon s
    → NoColon s'
    → s ++ b':' ∷ t ≡ s' ++ b':' ∷ t'
    → (s ≡ s') × (t ≡ t')
colon_inj [] [] t t' h h' e = (refl, cc)
colon_inj [] (d ∷ s') t t' h h' e = absurd (h'.0 (cc))
colon_inj (c ∷ s) [] t t' h h' e = absurd (h.0 (cc))
colon_inj (c ∷ s) (d ∷ s') t t' h h' e =
    let tails : s ++ b':' ∷ t ≡ s' ++ b':' ∷ t' = cc in
    let heads : c ≡ d = cc in let (same, rest) = colon_inj s s' t t' h.1 h'.1 tails in (cc, rest)

-- Sessions without a colon: equal keys have equal directions, sessions and texts.
pub key_in_inj :
    (d d' : ℕ) (s s' x x' : Text)
    → NoColon s
    → NoColon s'
    → key_in d s x ≡ key_in d' s' x'
    → (d ≡ d') × (s ≡ s') × (x ≡ x')
unfolding key_in
key_in_inj d d' s s' x x' h h' e =
    let inner : s ++ (b':' ∷ d ∷ b':' ∷ x) ≡ s' ++ (b':' ∷ d' ∷ b':' ∷ x') = cc in
    let (same, rest) = colon_inj s s' (d ∷ b':' ∷ x) (d' ∷ b':' ∷ x') h h' inner in (cc, same, cc)
