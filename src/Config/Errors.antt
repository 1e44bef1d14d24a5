-- ===== src/Config/Errors.antt =====
-- system_config/src/Configuration.cpp, Configuration::load: files with tags that do not match.
use supplementary.Base.{
  ℕ, ◌≡◌, ◌≢◌, sym, ap, ◌∙◌, false, List, [], ◌∷◌, ◌++◌, All, arith, append_nil,
}
use supplementary.Config.Words.{Word, trim_left, lines_of, equal}
use supplementary.Config.Node.{Children, nil, put_line, serialize_children, root}
use supplementary.Config.Load.{
  Frame, malformed, crashed, ◌>>=◌, scan_line, load_lines, finish, load, top,
}
use supplementary.Config.Load.Lines.{open_line, mismatch_line, close_last, crash_line}
use supplementary.Config.Load.Texts.{IsTag, IsKey, IsEntry, load-put_line}
use supplementary.Config.RoundTrip.{
  ArePrintable, load_children, push_all, step_line, tag_plain, key_plain, key_left, tag_left,
  root-IsTag,
}

-- The lines of an opening tag, of a closing tag and of an entry.
abbrev pub open_text : Word → Word
open_text n = put_line 1 (b'[' ∷ (n ++ b']' ∷ []))

abbrev pub close_text : Word → Word
close_text n = put_line 1 (b'[' ∷ b'!' ∷ (n ++ b']' ∷ []))

abbrev pub entry_text : Word → Word → Word
entry_text k v = put_line 1 (k ++ b' ' ∷ b'=' ∷ b' ' ∷ v)

newline_plain : (c : ℕ) (l : Word) → c ≢ 10 → All (λ d. d ≢ 10) l → All (λ d. d ≢ 10) (c ∷ l)
newline_plain c l h k = (h, k)

-- The frames after an opening tag and what stands in its section.
open_lines :
    (n : Word) (cs : Children) (rest : Word) (f : Frame)
    → IsTag n
    → ArePrintable cs
    → load_lines (lines_of (open_text n ++ (serialize_children 2 cs ++ rest))) (f ∷ [])
      ≡ load_lines (lines_of rest) (record { name = n; children = push_all nil cs } ∷ f ∷ [])
open_lines n cs rest f h k =
    step_line 1 (b'[' ∷ (n ++ b']' ∷ [])) (serialize_children 2 cs ++ rest) (f ∷ [])
      (record { name = n; children = nil } ∷ f ∷ [])
      (newline_plain b'[' (n ++ b']' ∷ []) (λ e. omega (arith, e)) (tag_plain n h))
      (tag_left (n ++ b']' ∷ [])) (open_line n f [] h)
    ∙ load_children 2 cs rest (record { name = n; children = nil }) (f ∷ []) k

close_plain : (m : Word) → IsTag m → All (λ d. d ≢ 10) (b'[' ∷ b'!' ∷ (m ++ b']' ∷ []))
close_plain m h =
    ((λ (e : b'[' ≡ 10). omega arith), ((λ (e : b'!' ≡ 10). omega arith), tag_plain m h))

-- A line that stops the loading.
stop_line :
    (d : ℕ) (body rest : Word) (fs : List Frame)
    → All (λ c. c ≢ 10) body
    → trim_left body ≡ body
    → (scan_line body fs ≡ malformed
        → load_lines (lines_of (put_line d body ++ rest)) fs ≡ malformed)
      × (scan_line body fs ≡ crashed → load_lines (lines_of (put_line d body ++ rest)) fs ≡ crashed)
stop_line d body rest fs h t =
    let p : load_lines (lines_of (put_line d body ++ rest)) fs
        ≡ (scan_line body fs >>= load_lines (lines_of rest)) =
      load-put_line d body rest fs h ∙ ap (λ l. scan_line l fs >>= load_lines (lines_of rest)) t in
    (
      λ e. p ∙ ap (λ o. o >>= load_lines (lines_of rest)) e,
      λ e. p ∙ ap (λ o. o >>= load_lines (lines_of rest)) e,
    )

-- A section that is not closed.
unclosed :
    (n : Word) (cs : Children)
    → IsTag n
    → ArePrintable cs
    → load (open_text n ++ serialize_children 2 cs) ≡ malformed
unfolding load load_lines lines_of scan_line trim_left finish
unclosed n cs h k =
    ap (λ l. load_lines (lines_of (open_text n ++ l)) (top nil ∷ []) >>= finish)
      (sym (append_nil (serialize_children 2 cs)))
    ∙ ap (λ o. o >>= finish) (open_lines n cs [] (top nil) h k)

-- A section that is closed by another name.
mismatched :
    (n m : Word) (cs : Children) (rest : Word)
    → IsTag n
    → IsTag m
    → equal m n ≡ false
    → ArePrintable cs
    → load (open_text n ++ (serialize_children 2 cs ++ (close_text m ++ rest))) ≡ malformed
unfolding load
mismatched n m cs rest h j e k =
    ap (λ o. o >>= finish)
      (open_lines n cs (close_text m ++ rest) (top nil) h k
        ∙ (stop_line 1 (b'[' ∷ b'!' ∷ (m ++ b']' ∷ [])) rest
              (record { name = n; children = push_all nil cs } ∷ top nil ∷ []) (close_plain m j)
              (tag_left (b'!' ∷ (m ++ b']' ∷ [])))).0
            (mismatch_line m n (push_all nil cs) (top nil ∷ []) j e))

-- The root is closed by its name, and an entry follows.
after_root :
    (cs : Children) (k v rest : Word)
    → ArePrintable cs
    → IsKey k
    → IsEntry v
    → load (serialize_children 1 cs ++ (close_text root ++ (entry_text k v ++ rest))) ≡ crashed
unfolding load
after_root cs k v rest h hk hv =
    ap (λ o. o >>= finish)
      (load_children 1 cs (close_text root ++ (entry_text k v ++ rest)) (top nil) [] h
        ∙ step_line 1 (b'[' ∷ b'!' ∷ (root ++ b']' ∷ [])) (entry_text k v ++ rest)
            (record { name = root; children = push_all nil cs } ∷ []) []
            (close_plain root root-IsTag) (tag_left (b'!' ∷ (root ++ b']' ∷ [])))
            (close_last root (push_all nil cs) root-IsTag)
        ∙ (stop_line 1 (k ++ b' ' ∷ b'=' ∷ b' ' ∷ v) rest [] (key_plain k v hk hv)
              (key_left k (b' ' ∷ b'=' ∷ b' ' ∷ v) hk)).1
            (crash_line k v hk))

-- With printable nodes around them, a section that is not closed and one that is closed by another name
-- are parse errors, whatever follows the closing tag. A closing tag "root" at the top leaves no current
-- node: an entry after it is added to a null pointer.
pub load-errors :
    (n m : Word) (cs : Children) (k v rest : Word)
    → IsTag n
    → IsTag m
    → equal m n ≡ false
    → ArePrintable cs
    → IsKey k
    → IsEntry v
    → (load (open_text n ++ serialize_children 2 cs) ≡ malformed)
      × (load (open_text n ++ (serialize_children 2 cs ++ (close_text m ++ rest))) ≡ malformed)
      × (load (serialize_children 1 cs ++ (close_text root ++ (entry_text k v ++ rest))) ≡ crashed)
load-errors n m cs k v rest h j e p hk hv =
    (unclosed n cs h p, mismatched n m cs rest h j e p, after_root cs k v rest p hk hv)
