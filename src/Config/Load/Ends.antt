-- ===== src/Config/Load/Ends.antt =====
-- system_config/src/Configuration.cpp, Configuration::load: the loop over a line ends.
use supplementary.Base.{
  ℕ, zero, suc, ◌+◌, ◌<◌, ◌≤◌, ◌==◌, ◌≡◌, ◌⊎◌, inl, inr, sym, subst, true, false, ◌||◌, none, some,
  List, [], ◌∷◌, length, ltb, if_both, Bool-cases, Option-cases, arith,
}
use supplementary.Config.Words.{Word, equal, unquote, is_blank, find, trim, trim_left, lines_of}
use supplementary.Config.Node.{ConfigNode, comment, nil}
use supplementary.Config.Load.{
  Frame, Outcome, done, malformed, crashed, out_of_fuel, Cursor, move_to, find_end, tag, open_tag,
  close_tag, add_node, read_tag, read_element, read_part, scan, scan_line, load_lines, finish, load,
  ◌>>=◌, rest_or, key_value, top,
}

abbrev pub Ends : {A : Type 0} → Outcome A → Type 0
Ends (done a) = Unit {0}
Ends malformed = Unit {0}
Ends crashed = Unit {0}
Ends out_of_fuel = ⊥

length-find :
    (c : ℕ) (l before after : Word)
    → find c l ≡ some (before, after)
    → length l ≡ suc (length before + length after)
unfolding find
length-find c [] b a h = cc
length-find c (d ∷ ds) b a h = elim (Bool-cases (d == c)) [
  | inl e ↦ ground (arith, e, h)
  | inr e ↦ elim (Option-cases (find c ds)) [
    | inl n ↦ absurd (ground (arith, e, n, h))
    | inr ((x, y), n) ↦ ground (arith, e, n, h, length-find c ds x y n)
  ]
]

length-find_end :
    (l before after : Word)
    → find_end l ≡ some (before, after)
    → length l ≡ suc (length before + length after)
unfolding find_end
length-find_end l b a h = elim (Option-cases (find b']' l)) [
  | inl n ↦ length-find b'>' l b a (ground (arith, n, h))
  | inr (x, n) ↦ length-find b']' l b a (ground (arith, n, h))
]

-- Either chr_pos is the place of the rest of the line, or the loop is at its end.
abbrev pub IsPlaced : ℕ → Cursor → Type 0
IsPlaced len c = (length c.line + c.chr_pos ≡ suc len) ⊎ (len ≤ suc c.chr_pos)

-- What a round of the loop leaves.
abbrev Moves : ℕ → ℕ → Outcome Cursor → Type 0
Moves len p (done d) = (p < d.chr_pos) × IsPlaced len d
Moves len p malformed = Unit {0}
Moves len p crashed = Unit {0}
Moves len p out_of_fuel = ⊥

move_to-Moves :
    (len p q : ℕ) (l : Word) (o : Outcome (List Frame))
    → Ends o
    → p < q
    → ((length l + q ≡ suc len) ⊎ (len ≤ suc q))
    → Moves len p (move_to q l o)
move_to-Moves len p q l (done fs) e h k = (h, k)
move_to-Moves len p q l malformed e h k = tt
move_to-Moves len p q l crashed e h k = tt
move_to-Moves len p q l out_of_fuel e h k = e

add_node-Ends : (n : ConfigNode) (fs : List Frame) → Ends (add_node n fs)
unfolding add_node
add_node-Ends n [] = tt
add_node-Ends n (f ∷ fs) = tt

open_tag-Ends : (n : Word) (fs : List Frame) → Ends (open_tag n fs)
unfolding open_tag
open_tag-Ends n [] = tt
open_tag-Ends n (f ∷ fs) = tt

close_tag-Ends : (n : Word) (fs : List Frame) → Ends (close_tag n fs)
unfolding close_tag
close_tag-Ends n [] = tt
close_tag-Ends n (f ∷ []) = if_both Ends (equal n f.name) (done []) malformed (λ _. tt) (λ _. tt)
close_tag-Ends n (f ∷ g ∷ fs) = if_both Ends (equal n f.name) _ malformed (λ _. tt) (λ _. tt)

tag-Ends : (n : Word) (fs : List Frame) → Ends (tag n fs)
unfolding tag
tag-Ends [] fs = tt
tag-Ends (c ∷ cs) fs =
    if_both Ends (c == b'/' || c == b'!') (close_tag cs fs) (open_tag (c ∷ cs) fs)
      (λ _. close_tag-Ends cs fs) (λ _. open_tag-Ends (c ∷ cs) fs)

read_tag-none :
    (p c : ℕ) (cs : Word) (fs : List Frame) → find_end cs ≡ none → read_tag p c cs fs ≡ malformed
unfolding read_tag
read_tag-none p c cs fs e = ground (arith, e)

read_tag-some :
    (p c : ℕ) (cs : Word) (fs : List Frame) (n after : Word)
    → find_end cs ≡ some (n, after)
    → read_tag p c cs fs ≡ move_to (p + (suc (length n) + 1)) (rest_or after (c ∷ cs)) (tag n fs)
unfolding read_tag
read_tag-some p c cs fs n after e = ground (arith, e)

rest_placed :
    (len p c : ℕ) (cs n after : Word)
    → suc (length cs) + p ≡ suc len
    → length cs ≡ suc (length n + length after)
    → (length (rest_or after (c ∷ cs)) + (p + (suc (length n) + 1)) ≡ suc len)
      ⊎ (len ≤ suc (p + (suc (length n) + 1)))
rest_placed len p c cs n [] h l = inr (omega arith)
rest_placed len p c cs n (d ∷ ds) h l = inl (omega arith)

read_tag-Moves :
    (len p c : ℕ) (cs : Word) (fs : List Frame)
    → suc (length cs) + p ≡ suc len
    → Moves len p (read_tag p c cs fs)
read_tag-Moves len p c cs fs h = elim (Option-cases (find_end cs)) [
  | inl e ↦ subst (Moves len p) (sym (read_tag-none p c cs fs e)) tt
  | inr ((n, after), e) ↦
      let l : length cs ≡ suc (length n + length after) = length-find_end cs n after e in
      subst (Moves len p) (sym (read_tag-some p c cs fs n after e)) (
        move_to-Moves len p (p + (suc (length n) + 1)) (rest_or after (c ∷ cs)) (tag n fs)
          (tag-Ends n fs) (omega arith) (rest_placed len p c cs n after h l))
]

read_element-Moves :
    (len p : ℕ) (l : Word) (fs : List Frame)
    → length l + p ≡ suc len
    → suc p < len
    → Moves len p (read_element p l fs)
unfolding read_element
read_element-Moves len p l fs h k =
    move_to-Moves len p (p + length l) [] (add_node (key_value (unquote l)) fs)
      (add_node-Ends (key_value (unquote l)) fs) (omega arith) (inr (omega arith))

read_part-Moves :
    (len p : ℕ) (l : Word) (fs : List Frame)
    → length l + p ≡ suc len
    → suc p < len
    → Moves len p (read_part p l fs)
unfolding read_part
read_part-Moves len p [] fs h k = tt
read_part-Moves len p (c ∷ cs) fs h k =
    if_both (Moves len p) (c == b'#') _ _
      (λ _.
        move_to-Moves len p (p + length cs) (c ∷ cs) (add_node (comment (trim cs)) fs)
          (add_node-Ends (comment (trim cs)) fs) (omega arith) (inr (omega arith)))
      (λ _.
        if_both (Moves len p) (c == b'<' || c == b'[') _ _ (λ _. read_tag-Moves len p c cs fs h)
          (λ _.
            if_both (Moves len p) (is_blank c) _ _ (λ _. (omega arith, inl (omega arith)))
              (λ _. read_element-Moves len p (c ∷ cs) fs h k)))

placed :
    (len : ℕ) (c : Cursor)
    → IsPlaced len c
    → suc c.chr_pos < len
    → length c.line + c.chr_pos ≡ suc len
placed len c (inl e) h = e
placed len c (inr e) h = absurd (omega arith)

after_round :
    (len p fuel : ℕ) (o : Outcome Cursor)
    → Moves len p o
    → ((d : Cursor) → (p < d.chr_pos) × IsPlaced len d → Ends (scan fuel len d))
    → Ends (o >>= scan fuel len)
after_round len p fuel (done d) m k = k d m
after_round len p fuel malformed m k = tt
after_round len p fuel crashed m k = tt
after_round len p fuel out_of_fuel m k = m

pub scan_stop :
    (fuel len : ℕ) (c : Cursor)
    → ltb (suc c.chr_pos) len ≡ false
    → scan (suc fuel) len c ≡ done c.frames
unfolding scan
scan_stop fuel len c e = ground (arith, e)

pub scan_next :
    (fuel len : ℕ) (c : Cursor)
    → ltb (suc c.chr_pos) len ≡ true
    → scan (suc fuel) len c ≡ (read_part c.chr_pos c.line c.frames >>= scan fuel len)
unfolding scan
scan_next fuel len c e = ground (arith, e)

scan-Ends :
    (fuel len : ℕ) (c : Cursor)
    → IsPlaced len c
    → suc len ≤ fuel + c.chr_pos
    → 0 < fuel
    → Ends (scan fuel len c)
scan-Ends zero len c p h k = absurd (omega arith)
scan-Ends (suc fuel) len c p h k = elim (Bool-cases (ltb (suc c.chr_pos) len)) [
  | inr e ↦ subst Ends (sym (scan_stop fuel len c e)) tt
  | inl e ↦ subst Ends (sym (scan_next fuel len c e)) (
      after_round len c.chr_pos fuel (read_part c.chr_pos c.line c.frames)
        (read_part-Moves len c.chr_pos c.line c.frames (placed len c p (ground (arith, e)))
          (ground (arith, e)))
        (λ d m. scan-Ends fuel len d m.1 (omega (arith, m.0)) (ground (arith, e))))
]

scan_line-Ends : (l : Word) (fs : List Frame) → Ends (scan_line l fs)
unfolding scan_line
scan_line-Ends [] fs = tt
scan_line-Ends (c ∷ cs) fs =
    scan-Ends (suc (length (c ∷ cs))) (length (c ∷ cs))
      (record { chr_pos = 1; line = c ∷ cs; frames = fs }) (inl (omega arith)) (omega arith)
      (omega arith)

>>=-Ends :
    {A B : Type 0} (o : Outcome A) (f : A → Outcome B)
    → Ends o
    → ((a : A) → Ends (f a))
    → Ends (o >>= f)
>>=-Ends (done a) f h k = k a
>>=-Ends malformed f h k = tt
>>=-Ends crashed f h k = tt
>>=-Ends out_of_fuel f h k = h

load_lines-Ends : (ls : List Word) (fs : List Frame) → Ends (load_lines ls fs)
unfolding load_lines
load_lines-Ends [] fs = tt
load_lines-Ends (l ∷ ls) fs =
    >>=-Ends (scan_line (trim_left l) fs) (load_lines ls) (scan_line-Ends (trim_left l) fs)
      (λ gs. load_lines-Ends ls gs)

finish-Ends : (fs : List Frame) → Ends (finish fs)
unfolding finish
finish-Ends [] = tt
finish-Ends (f ∷ []) = tt
finish-Ends (f ∷ g ∷ fs) = tt

-- load() ends on every text: the number of characters of a line bounds the rounds of its loop.
pub load-Ends : (content : Word) → Ends (load content)
unfolding load
load-Ends content =
    >>=-Ends (load_lines (lines_of content) (top nil ∷ [])) finish
      (load_lines-Ends (lines_of content) (top nil ∷ [])) finish-Ends
