-- ===== src/Config/Load/Texts.antt =====
-- system_config/src/Configuration.cpp: the texts of tags, keys and values, as load() reads them.
use supplementary.Base.{
  ℕ, zero, suc, ◌+◌, ◌≤◌, ◌≡◌, ◌≢◌, refl, sym, ap, ◌∙◌, false, some, List, [], ◌∷◌, ◌++◌, All,
  All-append, All-map, length, length-append, append_cons, arith,
}
use mathlib.Core.List.{append_assoc}
use supplementary.Config.Words.{Word, is_blank, trim_left, trim_right, trim, find, lines_of}
use supplementary.Config.Words.Laws.{find-append, equal_refl, lines_of-append, trim_right_blank}
use supplementary.Config.Node.{section, leaf, comment, Children, nil, push, put_line, tabs}
use supplementary.Config.Load.{
  Frame, done, Cursor, find_end, tag, open_tag, close_tag, add_node, read_tag, read_part, scan,
  scan_line, load_lines, ◌>>=◌, key_value,
}
use supplementary.Config.Load.Ends.{scan_stop, scan_next}

-- The tag names, keys, values and comments that a text keeps.
abbrev pub IsTag : Word → Type 0
IsTag [] = ⊥
IsTag (c ∷ cs) = (c ≢ b'/') × (c ≢ b'!') × All (λ d. (d ≢ b']') × (d ≢ 10)) (c ∷ cs)

abbrev pub IsKey : Word → Type 0
IsKey [] = ⊥
IsKey (c ∷ cs) =
    (is_blank c ≡ false)
    × (c ≢ b'#')
    × (c ≢ b'<')
    × (c ≢ b'[')
    × (trim (c ∷ cs) ≡ c ∷ cs)
    × All (λ d. (d ≢ b'=') × (d ≢ b'"') × (d ≢ 10)) (c ∷ cs)

abbrev pub IsEntry : Word → Type 0
IsEntry v = (trim v ≡ v) × All (λ d. (d ≢ b'"') × (d ≢ 10)) v

abbrev pub IsRemark : Word → Type 0
IsRemark [] = ⊥
IsRemark (c ∷ cs) = (trim (c ∷ cs) ≡ c ∷ cs) × All (λ d. d ≢ 10) (c ∷ cs)

tabs_plain : (d : ℕ) → All (λ c. c ≢ 10) (tabs d)
unfolding tabs
tabs_plain zero = tt
tabs_plain (suc d) = ((λ (e : 9 ≡ 10). omega arith), tabs_plain d)

trim_left-tabs : (d : ℕ) (l : Word) → trim_left (tabs d ++ l) ≡ trim_left l
unfolding tabs trim_left
trim_left-tabs zero l = refl
trim_left-tabs (suc d) l = trim_left-tabs d l

-- The first line of a text.
pub load-put_line :
    (d : ℕ) (body rest : Word) (fs : List Frame)
    → All (λ c. c ≢ 10) body
    → load_lines (lines_of (put_line d body ++ rest)) fs
      ≡ (scan_line (trim_left body) fs >>= load_lines (lines_of rest))
unfolding put_line load_lines
load-put_line d body rest fs h =
    let e : (tabs d ++ (body ++ 10 ∷ [])) ++ rest ≡ (tabs d ++ body) ++ 10 ∷ rest =
      append_assoc (tabs d) (body ++ 10 ∷ []) rest
      ∙ ap (λ l. tabs d ++ l) (append_cons body 10 rest)
      ∙ sym (append_assoc (tabs d) body (10 ∷ rest)) in
    let q : lines_of ((tabs d ++ (body ++ 10 ∷ [])) ++ rest) ≡ (tabs d ++ body) ∷ lines_of rest =
      ap lines_of e
      ∙ lines_of-append (tabs d ++ body) rest
          (All-append (λ c. c ≢ 10) (tabs d) body (tabs_plain d) h) in
    ap (λ ls. load_lines ls fs) q
    ∙ ap (λ l. scan_line l fs >>= load_lines (lines_of rest)) (trim_left-tabs d body)

-- A line that one round of the loop reads whole.
pub scan_line_once :
    (c : ℕ) (cs : Word) (fs gs : List Frame) (p : ℕ) (l : Word)
    → 2 ≤ length cs
    → read_part 1 (c ∷ cs) fs ≡ done (record { chr_pos = p; line = l; frames = gs })
    → length cs ≤ p
    → scan_line (c ∷ cs) fs ≡ done gs
unfolding scan_line
scan_line_once c cs fs gs p l h e k =
    let n : ℕ = suc (length cs) in
    let start : Cursor = record { chr_pos = 1; line = c ∷ cs; frames = fs } in
    let end : Cursor = record { chr_pos = p; line = l; frames = gs } in
    scan_next n n start (ground arith)
    ∙ ap (λ o. o >>= scan n n) e
    ∙ scan_stop (length cs) n end (ground arith)

pub find_end-append :
    (n : Word) → All (λ d. (d ≢ b']') × (d ≢ 10)) n → find_end (n ++ b']' ∷ []) ≡ some (n, [])
unfolding find_end
find_end-append n h = ground (
  arith,
  find-append b']' n [] (All-map (λ d. (d ≢ b']') × (d ≢ 10)) (λ d. d ≢ b']') n (λ d k. k.0) h),
)

read_tag-append :
    (n : Word) (fs gs : List Frame)
    → All (λ d. (d ≢ b']') × (d ≢ 10)) n
    → tag n fs ≡ done gs
    → read_part 1 (b'[' ∷ (n ++ b']' ∷ [])) fs
      ≡ done (record {
        chr_pos = 1 + (suc (length n) + 1);
        line = b'[' ∷ (n ++ b']' ∷ []);
        frames = gs;
      })
unfolding read_part read_tag
read_tag-append n fs gs h t = ground (arith, find_end-append n h, t)

pub length_end : (n : Word) → length (n ++ b']' ∷ []) ≡ suc (length n)
length_end n = omega (arith, length-append {0} n (b']' ∷ []))

pub tag_line :
    (c : ℕ) (cs : Word) (fs gs : List Frame)
    → All (λ d. (d ≢ b']') × (d ≢ 10)) (c ∷ cs)
    → tag (c ∷ cs) fs ≡ done gs
    → scan_line (b'[' ∷ ((c ∷ cs) ++ b']' ∷ [])) fs ≡ done gs
tag_line c cs fs gs h t =
    scan_line_once b'[' ((c ∷ cs) ++ b']' ∷ []) fs gs (1 + (suc (length (c ∷ cs)) + 1)) _
      (omega (arith, length_end (c ∷ cs))) (read_tag-append (c ∷ cs) fs gs h t)
      (omega (arith, length_end (c ∷ cs)))

pub tag_open :
    (c : ℕ) (cs : Word) (f : Frame) (fs : List Frame)
    → c ≢ b'/'
    → c ≢ b'!'
    → tag (c ∷ cs) (f ∷ fs) ≡ done (record { name = c ∷ cs; children = nil } ∷ f ∷ fs)
unfolding tag open_tag
tag_open c cs f fs h k = ground (arith, h, k)

pub tag_close :
    (n : Word) (cs : Children) (g : Frame) (fs : List Frame)
    → tag (b'!' ∷ n) (record { name = n; children = cs } ∷ g ∷ fs)
      ≡ done (record g { children = push g.children (section n cs) } ∷ fs)
unfolding tag close_tag
tag_close n cs g fs = rw (equal_refl n)

pub comment_part :
    (t : Word) (f : Frame) (fs : List Frame)
    → trim t ≡ t
    → read_part 1 (b'#' ∷ b' ' ∷ t) (f ∷ fs)
      ≡ done (record {
        chr_pos = 1 + length (b' ' ∷ t);
        line = b'#' ∷ b' ' ∷ t;
        frames = record f { children = push f.children (comment t) } ∷ fs;
      })
unfolding read_part add_node trim trim_left
comment_part t f fs h = rw h

pub key_trim :
    (c : ℕ) (cs : Word)
    → is_blank c ≡ false
    → trim (c ∷ cs) ≡ c ∷ cs
    → trim ((c ∷ cs) ++ b' ' ∷ []) ≡ c ∷ cs
unfolding trim trim_left
key_trim c cs h e =
    let q : trim_right (c ∷ cs) ≡ c ∷ cs = ground (arith, h, e) in
    ground (arith, h, trim_right_blank (c ∷ cs) b' ' refl, q)

pub value_trim : (v : Word) → trim (b' ' ∷ v) ≡ trim v
unfolding trim trim_left
value_trim v = refl

pub key_value_found :
    (l k v : Word) → find b'=' l ≡ some (k, v) → key_value l ≡ leaf (trim k) (trim v)
unfolding key_value
key_value_found l k v e = ground (arith, e)
