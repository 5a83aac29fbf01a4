-- ===== src/Utils/Patterns.antt =====
-- common/utils.py: the pattern of `validate_uuid`, against the form of a version 4 UUID.
use the_grid_x.Base.{
  ℕ, zero, suc, ◌≤◌, ◌≡◌, refl, ap, ◌∙◌, sym, subst, ◌⊎◌, ◌↔◌, inl, inr, true, List, [], ◌∷◌, ◌++◌,
  arith, Text, length, All, ◌==◌,
}
use mathlib.Core.List.{append-nil}
use the_grid_x.Utils.Validation.{
  newline, Class, uuid_pattern, match_classes, times, dash, is_hex, is_variant,
}

-- `body` itself, or `body` and a newline.
abbrev pub IsLine : Text → Text → Type 0
IsLine s body = (s ≡ body) ⊎ (s ≡ body ++ newline ∷ [])

-- Each character is of the class at its place, and there are as many.
abbrev pub Fits : List Class → Text → Type 0
Fits [] [] = Unit
Fits [] (c ∷ s) = ⊥
Fits (p ∷ ps) [] = ⊥
Fits (p ∷ ps) (c ∷ s) = (p c ≡ true) × Fits ps s

pub IsLine-cons : (c : ℕ) (s body : Text) → IsLine s body → IsLine (c ∷ s) (c ∷ body)
IsLine-cons c s body (inl e) = inl (cc)
IsLine-cons c s body (inr e) = inr (cc)

pub match_classes_sound :
    (ps : List Class) (s : Text)
    → match_classes ps s ≡ true
    → (body : Text) × IsLine s body × Fits ps body
unfolding match_classes
match_classes_sound [] [] h = ([], inl refl, tt)
match_classes_sound [] (c ∷ []) h = ([], inr (ground arith), tt)
match_classes_sound [] (c ∷ d ∷ s) h = absurd (ground arith)
match_classes_sound (p ∷ ps) [] h = absurd (cc)
match_classes_sound (p ∷ ps) (c ∷ s) h =
    let (body, line, fits) = match_classes_sound ps s (ground arith) in
    (c ∷ body, IsLine-cons c s body line, (ground arith, fits))

pub match_classes_complete :
    (ps : List Class) (body s : Text) → Fits ps body → IsLine s body → match_classes ps s ≡ true
unfolding match_classes
match_classes_complete [] [] s h (inl e) = rw e
match_classes_complete [] [] s h (inr e) = rw e
match_classes_complete [] (c ∷ body) s h line = absurd h
match_classes_complete (p ∷ ps) [] s h line = absurd h
match_classes_complete (p ∷ ps) (c ∷ body) s h (inl e) =
    rw (e, h.0) (match_classes_complete ps body body h.1 (inl refl))
match_classes_complete (p ∷ ps) (c ∷ body) s h (inr e) =
    rw (e, h.0) (match_classes_complete ps body (body ++ newline ∷ []) h.1 (inr refl))

abbrev pub IsHexDigit : ℕ → Type 0
IsHexDigit c = ((b'0' ≤ c) × (c ≤ b'9')) ⊎ (((b'a' ≤ c) × (c ≤ b'f')) ⊎ ((b'A' ≤ c) × (c ≤ b'F')))

-- The digits 8, 9, a and b, in either case.
abbrev pub IsVariantDigit : ℕ → Type 0
IsVariantDigit c =
    ((b'8' ≤ c) × (c ≤ b'9')) ⊎ (((b'a' ≤ c) × (c ≤ b'b')) ⊎ ((b'A' ≤ c) × (c ≤ b'B')))

abbrev pub AreHex : ℕ → Text → Type 0
AreHex n digits = (length digits ≡ n) × All IsHexDigit digits

-- A version 4 UUID: groups of 8, 4, 4, 4 and 12 hexadecimal digits between hyphens, where the third
-- group begins with the version and the fourth with the variant.
pub record IsUuid (s : Text) : Type 0 where
  pub first : Text
  pub second : Text
  pub third : Text
  pub fourth : Text
  pub last : Text
  pub variant : ℕ
  pub written :
      s
      ≡ first
        ++ b'-' ∷ (second ++ b'-' ∷ b'4' ∷ (third ++ b'-' ∷ variant ∷ (fourth ++ b'-' ∷ last)))
  pub first_hex : AreHex 8 first
  pub second_hex : AreHex 4 second
  pub third_hex : AreHex 3 third
  pub variant_fits : IsVariantDigit variant
  pub fourth_hex : AreHex 3 fourth
  pub last_hex : AreHex 12 last

is_hex_iff : (c : ℕ) → (is_hex c ≡ true) ↔ IsHexDigit c
unfolding is_hex
is_hex_iff c = (λ h. ground arith, λ h. ground arith)

is_variant_iff : (c : ℕ) → (is_variant c ≡ true) ↔ IsVariantDigit c
unfolding is_variant
is_variant_iff c = (λ h. ground arith, λ h. ground arith)

-- A group of digits in front, and the rest.
record Group (n : ℕ) (ps : List Class) (s : Text) : Type 0 where
  digits : Text
  rest : Text
  split : s ≡ digits ++ rest
  hex : AreHex n digits
  fits : Fits ps rest

Fits-Group : (n : ℕ) (ps : List Class) (s : Text) → Fits (times n is_hex ps) s → Group n ps s
Fits-Group zero ps s h = record { digits = []; rest = s; split = refl; hex = (refl, tt); fits = h }
Fits-Group (suc n) ps [] h = absurd h
Fits-Group (suc n) ps (c ∷ s) h =
    let g = Fits-Group n ps s h.1 in
    record {
      digits = c ∷ g.digits;
      rest = g.rest;
      split = ap (λ k. c ∷ k) g.split;
      hex = (ap suc g.hex.0, ((is_hex_iff c).0 h.0, g.hex.1));
      fits = g.fits;
    }

Group-Fits :
    (n : ℕ) (ps : List Class) (digits rest : Text)
    → AreHex n digits
    → Fits ps rest
    → Fits (times n is_hex ps) (digits ++ rest)
Group-Fits zero ps [] rest h fits = fits
Group-Fits zero ps (c ∷ digits) rest h fits = absurd (omega (arith, h.0))
Group-Fits (suc n) ps [] rest h fits = absurd (omega (arith, h.0))
Group-Fits (suc n) ps (c ∷ digits) rest h fits =
    ((is_hex_iff c).1 h.1.0, Group-Fits n ps digits rest (omega (arith, h.0), h.1.1) fits)

-- A character of a class in front, and the rest.
record One (p : Class) (ps : List Class) (s : Text) : Type 0 where
  char : ℕ
  rest : Text
  split : s ≡ char ∷ rest
  here : p char ≡ true
  fits : Fits ps rest

Fits-One : (p : Class) (ps : List Class) (s : Text) → Fits (p ∷ ps) s → One p ps s
Fits-One p ps [] h = absurd h
Fits-One p ps (c ∷ s) h = record { char = c; rest = s; split = refl; here = h.0; fits = h.1 }

Group-written :
    {n : ℕ} {ps : List Class} {s : Text} (g : Group n ps s) (rest : Text)
    → g.rest ≡ rest
    → s ≡ g.digits ++ rest
Group-written g rest e = g.split ∙ ap (λ t. g.digits ++ t) e

One-written :
    {p : Class} {ps : List Class} {s : Text} (o : One p ps s) (char : ℕ) (rest : Text)
    → o.char ≡ char
    → o.rest ≡ rest
    → s ≡ char ∷ rest
One-written o char rest e h = o.split ∙ cc

Fits-nil : (s : Text) → Fits [] s → s ≡ []
Fits-nil [] h = refl
Fits-nil (c ∷ s) h = absurd h

-- The pattern from its last group on, from its fourth, and so on.
abbrev from_last : List Class
from_last = times 12 is_hex []

abbrev from_fourth : List Class
from_fourth = times 3 is_hex (dash ∷ from_last)

abbrev from_third : List Class
from_third = times 3 is_hex (dash ∷ is_variant ∷ from_fourth)

abbrev version : Class
version c = c == b'4'

abbrev from_second : List Class
from_second = times 4 is_hex (dash ∷ version ∷ from_third)

is_char : (c d : ℕ) → (c == d) ≡ true → c ≡ d
is_char c d h = ground arith

pub Fits-IsUuid : (s : Text) → Fits uuid_pattern s → IsUuid s
unfolding uuid_pattern
Fits-IsUuid s h =
    let a = Fits-Group 8 (dash ∷ from_second) s h in
    let a' = Fits-One dash from_second a.rest a.fits in
    let b = Fits-Group 4 (dash ∷ version ∷ from_third) a'.rest a'.fits in
    let b' = Fits-One dash (version ∷ from_third) b.rest b.fits in
    let v = Fits-One version from_third b'.rest b'.fits in
    let c = Fits-Group 3 (dash ∷ is_variant ∷ from_fourth) v.rest v.fits in
    let c' = Fits-One dash (is_variant ∷ from_fourth) c.rest c.fits in
    let w = Fits-One is_variant from_fourth c'.rest c'.fits in
    let d = Fits-Group 3 (dash ∷ from_last) w.rest w.fits in
    let d' = Fits-One dash from_last d.rest d.fits in
    let e = Fits-Group 12 [] d'.rest d'.fits in
    let nothing = Fits-nil e.rest e.fits in
    let hyphen_a = is_char a'.char b'-' a'.here in
    let hyphen_b = is_char b'.char b'-' b'.here in
    let hyphen_c = is_char c'.char b'-' c'.here in
    let hyphen_d = is_char d'.char b'-' d'.here in
    let four = is_char v.char b'4' v.here in
    let fourth =
      Group-written d _
        (One-written d' _ _ hyphen_d (Group-written e [] nothing ∙ append-nil e.digits)) in
    let third = Group-written c _ (One-written c' _ _ hyphen_c (One-written w _ _ refl fourth)) in
    let second = Group-written b _ (One-written b' _ _ hyphen_b (One-written v _ _ four third)) in
    let written = Group-written a _ (One-written a' _ _ hyphen_a second) in
    record {
      first = a.digits;
      second = b.digits;
      third = c.digits;
      fourth = d.digits;
      last = e.digits;
      variant = w.char;
      written = written;
      first_hex = a.hex;
      second_hex = b.hex;
      third_hex = c.hex;
      variant_fits = (is_variant_iff w.char).0 w.here;
      fourth_hex = d.hex;
      last_hex = e.hex;
    }

pub IsUuid-Fits : (s : Text) → IsUuid s → Fits uuid_pattern s
unfolding uuid_pattern
IsUuid-Fits s u =
    let end =
      subst (Fits (times 12 is_hex [])) (append-nil u.last)
        (Group-Fits 12 [] u.last [] u.last_hex tt) in
    let variant = (is_variant_iff u.variant).1 u.variant_fits in
    let fourth =
      Group-Fits 3 (dash ∷ from_last) u.fourth (b'-' ∷ u.last) u.fourth_hex (refl, end) in
    let after_third : Text = b'-' ∷ u.variant ∷ (u.fourth ++ b'-' ∷ u.last) in
    let third =
      Group-Fits 3 (dash ∷ is_variant ∷ from_fourth) u.third after_third u.third_hex
        (refl, (variant, fourth)) in
    let after_second : Text = b'-' ∷ b'4' ∷ (u.third ++ after_third) in
    let second =
      Group-Fits 4 (dash ∷ version ∷ from_third) u.second after_second u.second_hex
        (refl, (refl, third)) in
    subst (Fits uuid_pattern) (sym u.written) (
      Group-Fits 8 (dash ∷ from_second) u.first (b'-' ∷ (u.second ++ after_second)) u.first_hex
        (refl, second))
