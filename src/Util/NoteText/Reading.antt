-- ===== src/Util/NoteText/Reading.antt =====
-- The lines of the signatures in pkg/util/signed_note.go, found in the text of a note.
use rekor.Base.{
  ℕ, ◌<◌, ◌==◌, ◌≡◌, refl, ap, sym, ◌∙◌, true, false, List, [], ◌∷◌, ◌++◌, none, some, lt→ltb,
  length, All, append-nil,
}
use rekor.Base.Bytes.{Bytes}
use rekor.Golib.Lines.{newline, split_lines, join_lines, IsLine, split-join}
use rekor.Util.Checkpoint.RoundTrip.{IsFull}
use rekor.Util.NoteText.{
  starts_newline, behind, split_last, ends_newline, terminated, max_scan_token_size, until_long,
  drop_cr,
}

behind-line : (c : ℕ) (s : Bytes) → (c == newline) ≡ false → behind c s none ≡ none
behind-line c [] h = refl
behind-line c (d ∷ s) h = rw h refl

behind-newline : (s : Bytes) → starts_newline s ≡ false → behind newline s none ≡ none
behind-newline [] h = refl
behind-newline (d ∷ s) h = rw h refl

split_last-line :
    (l s : Bytes)
    → IsLine l
    → split_last s ≡ none
    → starts_newline s ≡ false
    → split_last (l ++ newline ∷ s) ≡ none
unfolding split_last
split_last-line [] s _ e h = ap (behind newline s) e ∙ behind-newline s h
split_last-line (c ∷ l) s (n, ns) e h =
    ap (behind c (l ++ newline ∷ s)) (split_last-line l s ns e h)
    ∙ behind-line c (l ++ newline ∷ s) n

starts-join : (ls : List Bytes) → All IsFull ls → starts_newline (join_lines ls) ≡ false
starts-join [] _ = refl
starts-join ([] ∷ ls) ((h, _), _) = absurd (h refl)
starts-join ((c ∷ l) ∷ ls) ((_, (n, _)), _) = n

split_last-join : (ls : List Bytes) → All IsFull ls → split_last (join_lines ls) ≡ none
split_last-join [] _ = unfold split_last in refl
split_last-join (l ∷ ls) ((f, n), h) =
    split_last-line l (join_lines ls) n (split_last-join ls h) (starts-join ls h)

split_last-front :
    (t s : Bytes) {a b : Bytes}
    → split_last s ≡ some (a, b)
    → split_last (t ++ s) ≡ some (t ++ a, b)
unfolding split_last
split_last-front [] s e = e
split_last-front (c ∷ t) s e = ap (behind c (t ++ s)) (split_last-front t s e)

split_last-two :
    (s : Bytes)
    → split_last s ≡ none
    → starts_newline s ≡ false
    → split_last (newline ∷ newline ∷ s) ≡ some (newline ∷ [], s)
unfolding split_last
split_last-two s e h =
    ap (behind newline (newline ∷ s)) (ap (behind newline s) e ∙ behind-newline s h)

-- A text that ends in a newline, an empty line, and lines that are not empty come apart there.
pub split_last-lines :
    (t : Bytes) (ls : List Bytes)
    → All IsFull ls
    → split_last (t ++ newline ∷ newline ∷ join_lines ls) ≡ some (t ++ newline ∷ [], join_lines ls)
split_last-lines t ls h =
    split_last-front t (newline ∷ newline ∷ join_lines ls)
      (split_last-two (join_lines ls) (split_last-join ls h) (starts-join ls h))

ends-front : (c : ℕ) (s : Bytes) → ends_newline s ≡ true → ends_newline (c ∷ s) ≡ true
ends-front c [] h = cc
ends-front c (d ∷ s) h = h

ends-behind : (l s : Bytes) → ends_newline s ≡ true → ends_newline (l ++ s) ≡ true
ends-behind [] s h = h
ends-behind (c ∷ l) s h = ends-front c (l ++ s) (ends-behind l s h)

pub ends-join : (l : Bytes) (ls : List Bytes) → ends_newline (join_lines (l ∷ ls)) ≡ true
ends-join l [] = ends-behind l (newline ∷ []) refl
ends-join l (m ∷ ls) =
    ends-behind l (newline ∷ join_lines (m ∷ ls))
      (ends-front newline (join_lines (m ∷ ls)) (ends-join m ls))

terminated-snoc : (ls : List Bytes) → terminated (ls ++ [] ∷ []) ≡ ls
terminated-snoc [] = refl
terminated-snoc ([] ∷ []) = refl
terminated-snoc ((c ∷ l) ∷ []) = refl
terminated-snoc ([] ∷ m ∷ ls) = ap (λ t. [] ∷ t) (terminated-snoc (m ∷ ls))
terminated-snoc ((c ∷ l) ∷ m ∷ ls) = ap (λ t. (c ∷ l) ∷ t) (terminated-snoc (m ∷ ls))

-- The line, with its newline, fits the buffer of a scanner.
abbrev pub IsShort : Bytes → Type 0
IsShort l = length l < max_scan_token_size

until_long-short : (ls : List Bytes) → All IsShort ls → until_long ls ≡ ls
until_long-short [] _ = refl
until_long-short (l ∷ ls) (h, hs) =
    rw (lt→ltb (length l) max_scan_token_size h) (ap (λ t. l ∷ t) (until_long-short ls hs))

full_lines : (ls : List Bytes) → All IsFull ls → All IsLine ls
full_lines [] _ = tt
full_lines (l ∷ ls) ((_, h), hs) = (h, full_lines ls hs)

-- The scanner gives the lines again.
pub scanned-join :
    (ls : List Bytes)
    → All IsFull ls
    → All IsShort ls
    → until_long (terminated (split_lines (join_lines ls))) ≡ ls
scanned-join ls h k =
    ap (λ t. until_long (terminated (split_lines t))) (sym (append-nil (join_lines ls)))
    ∙ ap (λ t. until_long (terminated t)) (split-join ls [] (full_lines ls h))
    ∙ ap until_long (terminated-snoc ls)
    ∙ until_long-short ls k

pub drop_cr_none : (l : Bytes) → All (λ c. (c == 13) ≡ false) l → drop_cr l ≡ l
drop_cr_none [] _ = refl
drop_cr_none (c ∷ []) (h, _) = rw h refl
drop_cr_none (c ∷ d ∷ l) (_, hs) = ap (λ t. c ∷ t) (drop_cr_none (d ∷ l) hs)
