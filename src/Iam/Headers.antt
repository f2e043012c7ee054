-- ===== src/Iam/Headers.antt =====
-- src/iam/guards.ts, `bearerToken`: the header that a client sends carries its token.
use program_capacity_invoice.Prelude.{
  ℕ, ◌<◌, ◌≤◌, ◌+◌, ◌⊎◌, ◌≡◌, ◌≢◌, ◌==◌, inl, inr, Bool-cases, none, refl, arith, true, false, some,
  [], ◌∷◌, ◌++◌, Text, length, codes, is_space,
}
use program_capacity_invoice.Prelude.Plain.{AllPlain}
use program_capacity_invoice.Iam.{
  bearer_token, token_after, strip_word, skip_spaces, span_word, whole_token, lower_unit,
}

-- White space only.
abbrev pub AllSpaces : Text → Type 0
AllSpaces [] = Unit {0}
AllSpaces (c ∷ s) = (is_space c ≡ true) × AllSpaces s

skip_spaces-AllSpaces : (s : Text) → AllSpaces s → skip_spaces s ≡ []
unfolding skip_spaces
skip_spaces-AllSpaces [] h = refl
skip_spaces-AllSpaces (c ∷ s) h = rw h.0 (skip_spaces-AllSpaces s h.1)

skip_spaces-append :
    (gap : Text) (c : ℕ) (s : Text)
    → AllSpaces gap
    → is_space c ≡ false
    → skip_spaces (gap ++ c ∷ s) ≡ c ∷ s
unfolding skip_spaces
skip_spaces-append [] c s h e = rw e refl
skip_spaces-append (g ∷ gap) c s h e = rw h.0 (skip_spaces-append gap c s h.1 e)

span_word-append :
    (word end : Text) → AllPlain word → AllSpaces end → span_word (word ++ end) ≡ (word, end)
unfolding span_word
span_word-append [] [] h k = refl
span_word-append [] (c ∷ end) h k = rw k.0 refl
span_word-append (c ∷ word) end h k = rw h.0 (rw (span_word-append word end h.1 k) refl)

-- A word in any case: each unit is the small letter, or its capital.
abbrev pub IsLetter : ℕ → ℕ → Type 0
IsLetter small c = (c ≡ small) ⊎ (c + 32 ≡ small)

abbrev pub IsInAnyCase : Text → Text → Type 0
IsInAnyCase [] [] = Unit {0}
IsInAnyCase (small ∷ word) (c ∷ s) = IsLetter small c × IsInAnyCase word s
IsInAnyCase _ _ = ⊥

abbrev AllSmall : Text → Type 0
AllSmall [] = Unit {0}
AllSmall (c ∷ word) = (b'a' ≤ c) × (c ≤ b'z') × AllSmall word

lower_unit-IsLetter :
    (small c : ℕ) → b'a' ≤ small → small ≤ b'z' → IsLetter small c → (lower_unit c == small) ≡ true
lower_unit-IsLetter small c low high (inl e) = ground arith
lower_unit-IsLetter small c low high (inr e) = ground arith

strip_word-IsInAnyCase :
    (word s : Text) → AllSmall word → IsInAnyCase word s → strip_word word s ≡ some []
unfolding strip_word
strip_word-IsInAnyCase [] [] small h = refl
strip_word-IsInAnyCase [] (c ∷ s) small h = absurd h
strip_word-IsInAnyCase (w ∷ word) [] small h = absurd h
strip_word-IsInAnyCase (w ∷ word) (c ∷ s) small h =
    rw (lower_unit-IsLetter w c small.0 small.1 h.0) (strip_word-IsInAnyCase word s small.2 h.1)

bearer_small : AllSmall (codes "bearer")
bearer_small = (
  omega arith,
  omega arith,
  (
    omega arith,
    omega arith,
    (
      omega arith,
      omega arith,
      (omega arith, omega arith, (omega arith, omega arith, (omega arith, omega arith, tt))),
    ),
  ),
)

strip_word-append :
    (word s t : Text) → strip_word word s ≡ some [] → strip_word word (s ++ t) ≡ some t
unfolding strip_word
strip_word-append [] [] t h = refl
strip_word-append [] (c ∷ s) t h = cc
strip_word-append (w ∷ word) [] t h = cc
strip_word-append (w ∷ word) (c ∷ s) t h = elim (Bool-cases (lower_unit c == w)) [
  | inl e ↦ rw e (strip_word-append word s t (rw e at h))
  | inr e ↦ absurd (none_some (rw e at h))
]
  where
    none_some : none ≢ some (codes "")
    none_some e = cc

whole_token-sent :
    (token end : Text)
    → AllPlain token
    → 0 < length token
    → AllSpaces end
    → whole_token (span_word (token ++ end)) ≡ some token
whole_token-sent [] end t long e = absurd (omega arith)
whole_token-sent (c ∷ token) end t long e =
    rw (span_word-append (c ∷ token) end t e) (rw (skip_spaces-AllSpaces end e) refl)

token_after-sent :
    (gap token end : Text)
    → AllSpaces gap
    → 0 < length gap
    → AllPlain token
    → 0 < length token
    → AllSpaces end
    → token_after (some (gap ++ (token ++ end))) ≡ some token
unfolding token_after
token_after-sent [] token end g wide t long e = absurd (omega arith)
token_after-sent (s ∷ gap) [] end g wide t long e = absurd (omega arith)
token_after-sent (s ∷ gap) (c ∷ token) end g wide t long e = rw g.0 (
    rw (skip_spaces-append (s ∷ gap) c (token ++ end) g t.0)
      (whole_token-sent (c ∷ token) end t long e))

-- A header that is the word bearer, each of its letters small or capital, some white space, a
-- nonempty token without white space, and white space or nothing, carries that token:
-- bearerToken returns it.
pub bearer_token-sent :
    (word gap token end : Text)
    → IsInAnyCase (codes "bearer") word
    → AllSpaces gap
    → 0 < length gap
    → AllPlain token
    → 0 < length token
    → AllSpaces end
    → bearer_token (some (word ++ (gap ++ (token ++ end)))) ≡ some token
unfolding bearer_token
bearer_token-sent word gap token end scheme g wide t long e =
    rw
      (strip_word-append (codes "bearer") word (gap ++ (token ++ end))
        (strip_word-IsInAnyCase (codes "bearer") word bearer_small scheme))
      (token_after-sent gap token end g wide t long e)
