-- ===== src/Plugins/FilesystemSpace/Unescape.antt =====
-- The octal escapes of mountinfo, read by lib/snmpy/module/filesystem_space.py.
use snmpy.Shared.{
  All, Bool, Bool-cases, [], ap, arith, false, if◌then◌else◌, inl, inr, refl, true, ℕ, ◌%◌, ◌+◌,
  ◌/◌, ◌<◌, ◌==◌, ◌∙◌, ◌∷◌, ◌≡◌, ◌≢◌,
}
use snmpy.Shared.Text.{Text}
use snmpy.Plugins.FilesystemSpace.{is_digit_to, is_escape, unescape_path, unescaped}

-- A text with some bytes written as a backslash and three octal digits.
abbrev pub escape : (ℕ → Bool) → Text → Text
escape special [] = []
escape special (c ∷ s) =
    if special c
    then b'\\' ∷ (48 + c / 64) ∷ (48 + c / 8 % 8) ∷ (48 + c % 8) ∷ escape special s
    else c ∷ escape special s

is_escape_other : (a b c d : ℕ) → (a == b'\\') ≡ false → is_escape a b c d ≡ false
unfolding is_escape
is_escape_other a b c d h = rw h refl

unescape_other : (c : ℕ) (s : Text) → c ≢ b'\\' → unescape_path (c ∷ s) ≡ c ∷ unescape_path s
unfolding unescape_path
unescape_other c [] h = refl
unescape_other c (x ∷ []) h = refl
unescape_other c (x ∷ y ∷ []) h = refl
unescape_other c (x ∷ y ∷ z ∷ s) h =
    let plain : (c == b'\\') ≡ false = ground arith in
    rw (is_escape_other c x y z plain, unescape_path) refl

digits_are_octal :
    (c : ℕ) → c < 256 → is_escape b'\\' (48 + c / 64) (48 + c / 8 % 8) (48 + c % 8) ≡ true
unfolding is_escape is_digit_to
digits_are_octal c h = ground (arith)

unescape_special :
    (c : ℕ) (s : Text)
    → c < 256
    → unescape_path (b'\\' ∷ (48 + c / 64) ∷ (48 + c / 8 % 8) ∷ (48 + c % 8) ∷ s)
      ≡ c ∷ unescape_path s
unfolding unescape_path unescaped
unescape_special c s h =
    rw (digits_are_octal c h, unescape_path) (ap (λ x. x ∷ unescape_path s) (omega arith))

-- If backslashes are among the bytes that are escaped, whichever others are, `_unescape_path` gives the
-- text back.
pub unescape_path-escape :
    (special : ℕ → Bool) (s : Text)
    → special b'\\' ≡ true
    → All (λ c. c < 256) s
    → unescape_path (escape special s) ≡ s
unescape_path-escape special [] h k = unfold unescape_path in refl
unescape_path-escape special (c ∷ s) h (byte, k) = elim (Bool-cases (special c)) [
  | inl yes_ ↦ rw yes_ (
      unescape_special c (escape special s) byte
      ∙ ap (λ t. c ∷ t) (unescape_path-escape special s h k))
  | inr plain ↦ rw plain (
      unescape_other c (escape special s) (λ e. absurd (ground (arith, ap special e)))
      ∙ ap (λ t. c ∷ t) (unescape_path-escape special s h k))
]
