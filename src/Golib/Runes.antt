-- ===== src/Golib/Runes.antt =====
-- unicode/utf8.RuneCountInString, and the zero padding of the verb %0ws of fmt, which counts runes.
use rekor.Base.{
  ℕ, zero, suc, ◌-◌, ◌<◌, ◌≡◌, refl, Bool, false, ◌&&◌, ◌||◌, [], ◌∷◌, ◌++◌, arith, leb, ltb, ◌==◌,
  if◌then◌else◌, length, replicate, All,
}
use rekor.Base.Bytes.{Bytes}

abbrev pub within : ℕ → ℕ → Bytes → Bool
within lo hi [] = false
within lo hi (c ∷ _) = leb lo c && leb c hi

abbrev pub rest : Bytes → Bytes
rest [] = []
rest (_ ∷ s) = s

-- The bytes behind the first one that belong to its rune: none where the encoding is not valid.
unfoldable pub followers : ℕ → Bytes → ℕ
followers c s =
    let second =
      if c == 0xe0
      then within 0xa0 0xbf s
      else if c == 0xed
      then within 0x80 0x9f s
      else if c == 0xf0
      then within 0x90 0xbf s
      else if c == 0xf4
      then within 0x80 0x8f s
      else within 0x80 0xbf s in
    let third = within 0x80 0xbf (rest s) in
    let fourth = within 0x80 0xbf (rest (rest s)) in
    if ltb c 0xc2 || ltb 0xf4 c
    then 0
    else if ltb c 0xe0
    then (if second then 1 else 0)
    else if ltb c 0xf0
    then (if second && third then 2 else 0)
    else if second && third && fourth
    then 3
    else 0

-- `skip` bytes belong to the rune that is counted.
unfoldable pub count_from : ℕ → Bytes → ℕ
count_from skip [] = 0
count_from zero (c ∷ s) = suc (count_from (followers c s) s)
count_from (suc skip) (c ∷ s) = count_from skip s

unfoldable pub rune_count : Bytes → ℕ
rune_count s = count_from 0 s

-- fmt.Sprintf("%0ws", s)
unfoldable pub pad_zeros : ℕ → Bytes → Bytes
pad_zeros w s = replicate (w - rune_count s) b'0' ++ s

pub rune_count_ascii : (s : Bytes) → All (λ c. c < 128) s → rune_count s ≡ length s
unfolding rune_count count_from followers
rune_count_ascii [] _ = refl
rune_count_ascii (c ∷ s) (hc, hs) = ground (arith, rune_count_ascii s hs)

two_runes : rune_count (0xe2 ∷ 0x80 ∷ 0x94 ∷ 0xe2 ∷ []) ≡ 2
unfolding rune_count count_from followers
two_runes = refl
