-- ===== src/Prelude/Plain.antt =====
-- Texts without white space.
use mathlib.Core.Path.{◌≡◌, refl}
use mathlib.Core.Bool.{false}
use mathlib.Core.List.{[], ◌∷◌, ◌++◌, reverse_aux, reverse, reverse-reverse}
use program_capacity_invoice.Prelude.Strings.{Text, is_space, trim, trim_start}

-- No code unit that `trim` strips.
abbrev pub AllPlain : Text → Type 0
AllPlain [] = Unit
AllPlain (c ∷ s) = (is_space c ≡ false) × AllPlain s

pub AllPlain-append : (s t : Text) → AllPlain s → AllPlain t → AllPlain (s ++ t)
AllPlain-append [] t hs ht = ht
AllPlain-append (c ∷ s) t hs ht = (hs.0, AllPlain-append s t hs.1 ht)

reverse_aux-AllPlain : (s t : Text) → AllPlain s → AllPlain t → AllPlain (reverse_aux s t)
reverse_aux-AllPlain [] t hs ht = ht
reverse_aux-AllPlain (c ∷ s) t hs ht = reverse_aux-AllPlain s (c ∷ t) hs.1 (hs.0, ht)

trim_start-AllPlain : (s : Text) → AllPlain s → trim_start s ≡ s
unfolding trim_start
trim_start-AllPlain [] h = refl
trim_start-AllPlain (c ∷ s) h = rw h.0

pub trim-AllPlain : (s : Text) → AllPlain s → trim s ≡ s
unfolding trim
trim-AllPlain s h =
    rw (trim_start-AllPlain s h)
      (rw (trim_start-AllPlain (reverse s) (reverse_aux-AllPlain s [] h tt)) (reverse-reverse s))
