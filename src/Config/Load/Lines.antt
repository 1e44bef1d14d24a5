-- ===== src/Config/Load/Lines.antt =====
-- system_config/src/Configuration.cpp, Configuration::load: what each line that serialize_internal writes does.
use supplementary.Base.{
  ℕ, suc, ◌+◌, ◌≤◌, ◌≡◌, ◌≢◌, sym, ap, ◌∙◌, false, some, List, [], ◌∷◌, ◌++◌, All, All-append,
  All-map, length, length-append, append_cons, arith,
}
use supplementary.Config.Words.{Word, is_blank, find, equal, unquote}
use supplementary.Config.Words.Laws.{find-append, equal_refl, unquote_plain}
use supplementary.Config.Node.{section, leaf, comment, Children, nil, push}
use supplementary.Config.Load.{
  Frame, done, malformed, crashed, Cursor, tag, close_tag, add_node, read_tag, read_element,
  read_part, scan, scan_line, ◌>>=◌, key_value,
}
use supplementary.Config.Load.Ends.{scan_next}
use supplementary.Config.Load.Texts.{
  IsTag, IsKey, IsEntry, IsRemark, scan_line_once, find_end-append, length_end, tag_line, tag_open,
  tag_close, comment_part, key_trim, value_trim, key_value_found,
}

entry_node :
    (k v : Word)
    → IsKey k
    → IsEntry v
    → key_value (unquote (k ++ b' ' ∷ b'=' ∷ b' ' ∷ v)) ≡ leaf k v
entry_node [] v h e = elim h [ ]
entry_node (c ∷ cs) v h e =
    let k : Word = c ∷ cs in
    let plain : All (λ d. d ≢ b'"') (k ++ b' ' ∷ b'=' ∷ b' ' ∷ v) =
      All-append (λ d. d ≢ b'"') k (b' ' ∷ b'=' ∷ b' ' ∷ v)
        (All-map (λ d. (d ≢ b'=') × (d ≢ b'"') × (d ≢ 10)) (λ d. d ≢ b'"') k (λ d z. z.1) h.5)
        (
          (λ (z : b' ' ≡ b'"'). omega arith),
          (
            (λ (z : b'=' ≡ b'"'). omega arith),
            (
              (λ (z : b' ' ≡ b'"'). omega arith),
              All-map (λ d. (d ≢ b'"') × (d ≢ 10)) (λ d. d ≢ b'"') v (λ d z. z.0) e.1,
            ),
          ),
        ) in
    let before : All (λ d. d ≢ b'=') (k ++ b' ' ∷ []) =
      All-append (λ d. d ≢ b'=') k (b' ' ∷ [])
        (All-map (λ d. (d ≢ b'=') × (d ≢ b'"') × (d ≢ 10)) (λ d. d ≢ b'=') k (λ d z. z.0) h.5)
        ((λ (z : b' ' ≡ b'='). omega arith), tt) in
    let found : find b'=' (k ++ b' ' ∷ b'=' ∷ b' ' ∷ v) ≡ some (k ++ b' ' ∷ [], b' ' ∷ v) =
      ap (find b'=') (sym (append_cons k b' ' (b'=' ∷ b' ' ∷ v)))
      ∙ find-append b'=' (k ++ b' ' ∷ []) (b' ' ∷ v) before in
    ap key_value (unquote_plain (k ++ b' ' ∷ b'=' ∷ b' ' ∷ v) plain)
    ∙ key_value_found (k ++ b' ' ∷ b'=' ∷ b' ' ∷ v) (k ++ b' ' ∷ []) (b' ' ∷ v) found
    ∙ (λ i. leaf (key_trim c cs h.0 h.4 i) ((value_trim v ∙ e.0) i))

entry_part :
    (c : ℕ) (cs v : Word) (f : Frame) (fs : List Frame)
    → IsKey (c ∷ cs)
    → IsEntry v
    → read_part 1 (c ∷ (cs ++ b' ' ∷ b'=' ∷ b' ' ∷ v)) (f ∷ fs)
      ≡ done (record {
        chr_pos = 1 + length (c ∷ (cs ++ b' ' ∷ b'=' ∷ b' ' ∷ v));
        line = [];
        frames = record f { children = push f.children (leaf (c ∷ cs) v) } ∷ fs;
      })
unfolding read_part read_element add_node
entry_part c cs v f fs h e = ground (arith, entry_node (c ∷ cs) v h e, h.0, h.1, h.2, h.3)

-- An opening tag.
pub open_line :
    (n : Word) (f : Frame) (fs : List Frame)
    → IsTag n
    → scan_line (b'[' ∷ (n ++ b']' ∷ [])) (f ∷ fs)
      ≡ done (record { name = n; children = nil } ∷ f ∷ fs)
open_line [] f fs h = elim h [ ]
open_line (c ∷ cs) f fs h = tag_line c cs (f ∷ fs) _ h.2 (tag_open c cs f fs h.0 h.1)

-- A closing tag.
pub close_line :
    (n : Word) (cs : Children) (g : Frame) (fs : List Frame)
    → IsTag n
    → scan_line (b'[' ∷ b'!' ∷ (n ++ b']' ∷ [])) (record { name = n; children = cs } ∷ g ∷ fs)
      ≡ done (record g { children = push g.children (section n cs) } ∷ fs)
close_line [] cs g fs h = elim h [ ]
close_line (c ∷ n) cs g fs h =
    tag_line b'!' (c ∷ n) (record { name = c ∷ n; children = cs } ∷ g ∷ fs) _
      (((λ (e : b'!' ≡ b']'). omega arith), (λ (e : b'!' ≡ 10). omega arith)), h.2)
      (tag_close (c ∷ n) cs g fs)

-- A line whose first round has no result.
scan_line_stops :
    (c : ℕ) (cs : Word) (fs : List Frame)
    → 2 ≤ length cs
    → (read_part 1 (c ∷ cs) fs ≡ malformed → scan_line (c ∷ cs) fs ≡ malformed)
      × (read_part 1 (c ∷ cs) fs ≡ crashed → scan_line (c ∷ cs) fs ≡ crashed)
unfolding scan_line
scan_line_stops c cs fs h =
    let n : ℕ = suc (length cs) in
    let start : Cursor = record { chr_pos = 1; line = c ∷ cs; frames = fs } in
    let p : scan (suc n) n start ≡ (read_part 1 (c ∷ cs) fs >>= scan n n) =
      scan_next n n start (ground arith) in
    (λ e. p ∙ ap (λ o. o >>= scan n n) e, λ e. p ∙ ap (λ o. o >>= scan n n) e)

tag_mismatch :
    (m n : Word) (cs : Children) (fs : List Frame)
    → equal m n ≡ false
    → tag (b'!' ∷ m) (record { name = n; children = cs } ∷ fs) ≡ malformed
unfolding tag close_tag
tag_mismatch m n cs [] h = ground (arith, h)
tag_mismatch m n cs (g ∷ fs) h = ground (arith, h)

bad_tag_part :
    (n : Word) (fs : List Frame)
    → All (λ d. (d ≢ b']') × (d ≢ 10)) n
    → tag n fs ≡ malformed
    → read_part 1 (b'[' ∷ (n ++ b']' ∷ [])) fs ≡ malformed
unfolding read_part read_tag
bad_tag_part n fs h t = ground (arith, find_end-append n h, t)

-- A closing tag of another name.
pub mismatch_line :
    (m n : Word) (cs : Children) (fs : List Frame)
    → IsTag m
    → equal m n ≡ false
    → scan_line (b'[' ∷ b'!' ∷ (m ++ b']' ∷ [])) (record { name = n; children = cs } ∷ fs)
      ≡ malformed
mismatch_line [] n cs fs h e = elim h [ ]
mismatch_line (c ∷ m) n cs fs h e =
    (scan_line_stops b'[' (b'!' ∷ ((c ∷ m) ++ b']' ∷ [])) (record { name = n; children = cs } ∷ fs)
        (omega (arith, length_end (c ∷ m)))).0
      (bad_tag_part (b'!' ∷ c ∷ m) (record { name = n; children = cs } ∷ fs)
        (((λ (e : b'!' ≡ b']'). omega arith), (λ (e : b'!' ≡ 10). omega arith)), h.2)
        (tag_mismatch (c ∷ m) n cs fs e))

tag_root :
    (n : Word) (cs : Children) → tag (b'!' ∷ n) (record { name = n; children = cs } ∷ []) ≡ done []
unfolding tag close_tag
tag_root n cs = rw (equal_refl n)

-- A closing tag of the last frame.
pub close_last :
    (n : Word) (cs : Children)
    → IsTag n
    → scan_line (b'[' ∷ b'!' ∷ (n ++ b']' ∷ [])) (record { name = n; children = cs } ∷ []) ≡ done []
close_last [] cs h = elim h [ ]
close_last (c ∷ n) cs h =
    tag_line b'!' (c ∷ n) (record { name = c ∷ n; children = cs } ∷ []) []
      (((λ (e : b'!' ≡ b']'). omega arith), (λ (e : b'!' ≡ 10). omega arith)), h.2)
      (tag_root (c ∷ n) cs)

-- A comment.
pub comment_line :
    (t : Word) (f : Frame) (fs : List Frame)
    → IsRemark t
    → scan_line (b'#' ∷ b' ' ∷ t) (f ∷ fs)
      ≡ done (record f { children = push f.children (comment t) } ∷ fs)
comment_line [] f fs h = elim h [ ]
comment_line (c ∷ cs) f fs h =
    scan_line_once b'#' (b' ' ∷ c ∷ cs) (f ∷ fs) _ (1 + length (b' ' ∷ c ∷ cs)) _ (omega arith)
      (comment_part (c ∷ cs) f fs h.0) (omega arith)

-- An entry.
pub entry_line :
    (k v : Word) (f : Frame) (fs : List Frame)
    → IsKey k
    → IsEntry v
    → scan_line (k ++ b' ' ∷ b'=' ∷ b' ' ∷ v) (f ∷ fs)
      ≡ done (record f { children = push f.children (leaf k v) } ∷ fs)
entry_line [] v f fs h e = elim h [ ]
entry_line (c ∷ cs) v f fs h e =
    scan_line_once c (cs ++ b' ' ∷ b'=' ∷ b' ' ∷ v) (f ∷ fs) _
      (1 + length (c ∷ (cs ++ b' ' ∷ b'=' ∷ b' ' ∷ v))) _
      (omega (arith, length-append {0} cs (b' ' ∷ b'=' ∷ b' ' ∷ v))) (entry_part c cs v f fs h e)
      (omega arith)

crash_part :
    (c : ℕ) (cs : Word)
    → is_blank c ≡ false
    → c ≢ b'<'
    → c ≢ b'['
    → read_part 1 (c ∷ cs) [] ≡ crashed
unfolding read_part read_element add_node
crash_part c cs h k j = ground (arith, h, k, j)

-- An entry where no frame is left.
pub crash_line : (k v : Word) → IsKey k → scan_line (k ++ b' ' ∷ b'=' ∷ b' ' ∷ v) [] ≡ crashed
crash_line [] v h = elim h [ ]
crash_line (c ∷ cs) v h =
    (scan_line_stops c (cs ++ b' ' ∷ b'=' ∷ b' ' ∷ v) []
        (omega (arith, length-append {0} cs (b' ' ∷ b'=' ∷ b' ' ∷ v)))).1
      (crash_part c (cs ++ b' ' ∷ b'=' ∷ b' ' ∷ v) h.0 h.2 h.3)
