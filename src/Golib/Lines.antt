-- ===== src/Golib/Lines.antt =====
-- bytes.Split at newlines, and lines put together.
use rekor.Base.{
  ℕ, ◌≡◌, refl, ap, sym, ◌∙◌, false, List, [], ◌∷◌, ◌++◌, ◌==◌, if◌then◌else◌, All, append_assoc,
}
use rekor.Base.Bytes.{Bytes}

abbrev pub newline : ℕ
newline = 10

-- A character in front of the first of some lines.
abbrev pub onto_first : ℕ → List Bytes → List Bytes
onto_first c [] = (c ∷ []) ∷ []
onto_first c (l ∷ ls) = (c ∷ l) ∷ ls

abbrev pub split_lines : Bytes → List Bytes
split_lines [] = [] ∷ []
split_lines (c ∷ s) = if c == newline then [] ∷ split_lines s else onto_first c (split_lines s)

abbrev pub IsLine : Bytes → Type 0
IsLine s = All (λ c. (c == newline) ≡ false) s

-- The text of lines, each with its newline.
abbrev pub join_lines : List Bytes → Bytes
join_lines [] = []
join_lines (l ∷ ls) = l ++ newline ∷ join_lines ls

pub split-line : (l s : Bytes) → IsLine l → split_lines (l ++ newline ∷ s) ≡ l ∷ split_lines s
split-line [] s _ = refl
split-line (c ∷ l) s (h, hs) = rw (h, split-line l s hs) refl

pub split-join :
    (ls : List Bytes) (s : Bytes)
    → All IsLine ls
    → split_lines (join_lines ls ++ s) ≡ ls ++ split_lines s
split-join [] s _ = refl
split-join (l ∷ ls) s (h, hs) =
    rw (append_assoc l) (split-line l (join_lines ls ++ s) h ∙ ap (λ t. l ∷ t) (split-join ls s hs))

-- Some lines end in a newline.
pub join-ends :
    (l : Bytes) (ls : List Bytes) → (t : Bytes) × (join_lines (l ∷ ls) ≡ t ++ newline ∷ [])
join-ends l [] = (l, refl)
join-ends l (m ∷ ls) =
    let (t, e) = join-ends m ls in
    (
      l ++ newline ∷ t,
      ap (λ s. l ++ newline ∷ s) e ∙ sym (append_assoc l (newline ∷ t) (newline ∷ [])),
    )
