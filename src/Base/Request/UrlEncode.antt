-- ===== src/Base/Request/UrlEncode.antt =====
-- request::url_encode of base/request.h.
use s3fuse.Prelude.{
  ℕ, ◌-◌, ◌/◌, ◌%◌, Bool, true, false, ◌&&◌, ◌||◌, [], ◌∷◌, ltb, leb, ◌==◌, if◌then◌else◌, get_or,
  every, every_holds, ==_iff, Bool-cases, inl, inr, ◌⊎◌, ◌≡◌, ◌≢◌, ◌<◌, refl, sym, ap, ◌∙◌, All,
  arith,
}
use s3fuse.Prelude.Text.{Text, codes}

unfoldable pub is_alnum : ℕ → Bool
is_alnum c = leb 48 c && leb c 57 || leb 65 c && leb c 90 || leb 97 c && leb c 122

-- `HEX[n]`
unfoldable pub upper_hex : ℕ → ℕ
upper_hex n = get_or (codes "0123456789ABCDEF") n 0

unfoldable pub is_kept : ℕ → Bool
unfolding is_alnum
is_kept c = c == 47 || c == 46 || c == 45 || c == 42 || c == 95 || is_alnum c

unfoldable pub url_encode : Text → Text
unfolding is_kept upper_hex
url_encode [] = []
url_encode (c ∷ s) =
    let rest = url_encode s in
    if is_kept c then c ∷ rest else 37 ∷ upper_hex (c / 16) ∷ upper_hex (c % 16) ∷ rest

-- The value of a digit.
abbrev hex_value : ℕ → ℕ
hex_value c = if ltb c 65 then c - 48 else c - 55

hex_digits_fit : every (λ n. hex_value (upper_hex n) == n) 16 ≡ true
unfolding upper_hex every
hex_digits_fit = refl

hex_value-upper_hex : (n : ℕ) → n < 16 → hex_value (upper_hex n) ≡ n
hex_value-upper_hex n h =
    (==_iff (hex_value (upper_hex n)) n).0
      (every_holds (λ n. hex_value (upper_hex n) == n) 16 n h hex_digits_fit)

-- The digits of a byte tell which it is.
digits_differ :
    (c d : ℕ)
    → c < 256
    → d < 256
    → upper_hex (c / 16) ≡ upper_hex (d / 16)
    → upper_hex (c % 16) ≡ upper_hex (d % 16)
    → c ≡ d
digits_differ c d hc hd e f =
    let high : c / 16 ≡ d / 16 =
      sym (hex_value-upper_hex (c / 16) (omega arith))
      ∙ ap hex_value e
      ∙ hex_value-upper_hex (d / 16) (omega arith) in
    let low : c % 16 ≡ d % 16 =
      sym (hex_value-upper_hex (c % 16) (omega arith))
      ∙ ap hex_value f
      ∙ hex_value-upper_hex (d % 16) (omega arith) in
    omega arith

percent_is_not_kept : (c : ℕ) → is_kept c ≡ true → c ≢ 37
unfolding is_kept is_alnum
percent_is_not_kept c h e = ground arith

-- Two names of bytes with the same encoding are the same.
pub url_encode_injective :
    (s t : Text) → All (λ c. c < 256) s → All (λ c. c < 256) t → url_encode s ≡ url_encode t → s ≡ t
unfolding url_encode
url_encode_injective [] [] hs ht e = refl
url_encode_injective [] (d ∷ t) hs ht e = absurd (ground arith)
url_encode_injective (c ∷ s) [] hs ht e = absurd (ground arith)
url_encode_injective (c ∷ s) (d ∷ t) (hc, hs) (hd, ht) e =
    by_kept (url_encode_injective s t hs ht) (Bool-cases (is_kept c)) (Bool-cases (is_kept d))
  where
    by_kept :
        (url_encode s ≡ url_encode t → s ≡ t)
        → (is_kept c ≡ true) ⊎ (is_kept c ≡ false)
        → (is_kept d ≡ true) ⊎ (is_kept d ≡ false)
        → c ∷ s ≡ d ∷ t
    by_kept same_rest (inl k) (inl l) = ground (arith, same_rest)
    by_kept same_rest (inl k) (inr l) = absurd (ground (arith, percent_is_not_kept c k))
    by_kept same_rest (inr k) (inl l) = absurd (ground (arith, percent_is_not_kept d l))
    by_kept same_rest (inr k) (inr l) = ground (arith, same_rest, digits_differ c d hc hd)
