-- ===== src/Config/Words/Laws.antt =====
-- system_config/src/Configuration.cpp: laws of trimming and searching.
use supplementary.Base.{ℕ, ◌≡◌, ◌≢◌, refl, true, some, [], ◌∷◌, ◌++◌, All, arith}
use supplementary.Config.Words.{Word, is_blank, trim_right, find, equal, unquote, lines_of}

pub find-append :
    (c : ℕ) (before after : Word)
    → All (λ d. d ≢ c) before
    → find c (before ++ c ∷ after) ≡ some (before, after)
unfolding find
find-append c [] after h = ground arith
find-append c (d ∷ ds) after h = ground (arith, h.0, find-append c ds after h.1)

pub equal_refl : (l : Word) → equal l l ≡ true
unfolding equal
equal_refl [] = refl
equal_refl (c ∷ cs) = ground (arith, equal_refl cs)

pub unquote_plain : (l : Word) → All (λ d. d ≢ b'"') l → unquote l ≡ l
unfolding unquote
unquote_plain [] h = refl
unquote_plain (c ∷ []) h = ground (arith, h.0)
unquote_plain (c ∷ d ∷ ds) h = ground (arith, h.0, unquote_plain (d ∷ ds) h.1)

pub lines_of-append :
    (l rest : Word) → All (λ d. d ≢ 10) l → lines_of (l ++ 10 ∷ rest) ≡ l ∷ lines_of rest
unfolding lines_of
lines_of-append [] rest h = refl
lines_of-append (c ∷ cs) rest h = ground (arith, h.0, lines_of-append cs rest h.1)

pub trim_right_blank :
    (l : Word) (b : ℕ) → is_blank b ≡ true → trim_right (l ++ b ∷ []) ≡ trim_right l
unfolding trim_right
trim_right_blank [] b h = ground (arith, h)
trim_right_blank (c ∷ cs) b h = ground (arith, trim_right_blank cs b h)
