-- ===== src/Base/Text.antt =====
-- Python's `str` as the list of its code points, with the methods that the service calls.
-- Case mapping and white space are those of ASCII; any other character has no case.
use Prim.Native.Nat.{ℕ, zero, suc, ◌-◌}
use Prim.Native.Char.{code}
use Prim.Native.String.{String}
use mathlib.Core.Path.{◌≡◌, refl, ap₂}
use mathlib.Core.Logic.{◌↔◌}
use mathlib.Core.Bool.{Bool, true, false, ◌&&◌, ◌||◌}
use mathlib.Core.List.{List, [], ◌∷◌, map, reverse}
use native.Mathlib.Omega.{arith}
use microservice_wallet_serv.Base.Tests.{leb, ◌==◌, if◌then◌else◌}

abbrev pub Text : Type 0
Text = List ℕ

-- a literal of the source
abbrev pub text : String → Text
text String.[] = []
text (String.◌∷◌ c s) = code c ∷ text s

-- s == t
unfoldable pub same_text : Text → Text → Bool
same_text [] [] = true
same_text (a ∷ s) (b ∷ t) = a == b && same_text s t
same_text [] (b ∷ t) = false
same_text (a ∷ s) [] = false

pub same_text_sound : (s t : Text) → same_text s t ≡ true → s ≡ t
unfolding same_text
same_text_sound [] [] h = refl
same_text_sound (a ∷ s) (b ∷ t) h = ground (arith, same_text_sound s t)
same_text_sound [] (b ∷ t) h = ground arith
same_text_sound (a ∷ s) [] h = ground arith

pub same_text_refl : (s : Text) → same_text s s ≡ true
unfolding same_text
same_text_refl [] = refl
same_text_refl (a ∷ s) = ground (arith, same_text_refl s)

pub same_text_iff : (s t : Text) → (same_text s t ≡ true) ↔ (s ≡ t)
same_text_iff s t = (same_text_sound s t, λ e. rw (← e) (same_text_refl s))

-- bool(s)
abbrev pub is_truthy : Text → Bool
is_truthy [] = false
is_truthy (_ ∷ _) = true

unfoldable pub upper_char : ℕ → ℕ
upper_char c = if leb b'a' c && leb c b'z' then c - 32 else c

-- s.upper()
unfoldable pub upper : Text → Text
unfolding upper_char
upper = map upper_char

pub upper_char_idem : (c : ℕ) → upper_char (upper_char c) ≡ upper_char c
unfolding upper_char
upper_char_idem c = ground arith

pub upper_idem : (s : Text) → upper (upper s) ≡ upper s
unfolding upper
upper_idem [] = refl
upper_idem (c ∷ s) = ap₂ ◌∷◌ (upper_char_idem c) (upper_idem s)

-- str.isspace on one ASCII character
unfoldable pub is_space : ℕ → Bool
is_space c = (leb 9 c && leb c 13) || (leb 28 c && leb c 32)

unfoldable pub strip_left : Text → Text
unfolding is_space
strip_left [] = []
strip_left (c ∷ s) = if is_space c then strip_left s else c ∷ s

-- s.strip()
unfoldable pub strip : Text → Text
unfolding strip_left
strip s = reverse (strip_left (reverse (strip_left s)))

-- s.startswith(t)
unfoldable pub starts_with : Text → Text → Bool
starts_with s [] = true
starts_with [] (b ∷ t) = false
starts_with (a ∷ s) (b ∷ t) = a == b && starts_with s t

-- t in s
unfoldable pub has_substring : Text → Text → Bool
unfolding starts_with
has_substring t [] = starts_with [] t
has_substring t (a ∷ s) = starts_with (a ∷ s) t || has_substring t s

-- s.count(c), of one character
unfoldable pub count : ℕ → Text → ℕ
count c [] = 0
count c (a ∷ s) = let rest = count c s in if a == c then suc rest else rest

-- s[:n]
unfoldable pub take : ℕ → Text → Text
take zero s = []
take (suc n) [] = []
take (suc n) (a ∷ s) = a ∷ take n s

-- s.rstrip(c), of one character
unfoldable pub strip_left_of : ℕ → Text → Text
strip_left_of c [] = []
strip_left_of c (a ∷ s) = let rest = strip_left_of c s in if a == c then rest else a ∷ s

unfoldable pub rstrip : ℕ → Text → Text
unfolding strip_left_of
rstrip c s = reverse (strip_left_of c (reverse s))

-- s without its first n characters
unfoldable pub drop : ℕ → Text → Text
drop zero s = s
drop (suc n) [] = []
drop (suc n) (a ∷ s) = drop n s
