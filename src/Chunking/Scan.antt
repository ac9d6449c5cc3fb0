-- ===== src/Chunking/Scan.antt =====
-- str.strip, normalise, and the regular expressions of app/services/rag/chunking.py, as scanners
-- over code points.
use danah_v.Prelude.{
  ℕ, suc, ◌==◌, Bool, true, false, ◌&&◌, ◌||◌, List, [], ◌∷◌, ◌++◌, leb, if◌then◌else◌,
}
use danah_v.Models.{Text}

abbrev between : ℕ → ℕ → ℕ → Bool
between low high c = leb low c && leb c high

-- str.isspace of a code point, which is also \s of re.
unfoldable pub is_space : ℕ → Bool
is_space c =
    between 9 13 c
    || between 28 32 c
    || c == 133
    || c == 160
    || c == 5760
    || between 8192 8202 c
    || between 8232 8233 c
    || c == 8239
    || c == 8287
    || c == 12_288

abbrev pub is_blank : Text → Bool
is_blank [] = true
is_blank (c ∷ cs) = false

unfoldable pub lstrip : Text → Text
unfolding is_space
lstrip [] = []
lstrip (c ∷ cs) = if is_space c then lstrip cs else c ∷ cs

unfoldable pub rstrip : Text → Text
unfolding is_space
rstrip [] = []
rstrip (c ∷ cs) = let rest = rstrip cs in if is_space c && is_blank rest then [] else c ∷ rest

unfoldable pub strip : Text → Text
unfolding lstrip rstrip
strip t = rstrip (lstrip t)

-- replace("\r\n", "\n").replace("\r", "\n"): `after_return` says that a "\r" has just been written.
unfoldable pub newlines : Bool → Text → Text
newlines after_return [] = []
newlines after_return (c ∷ cs) = elim (c == 13) [
  | true ↦ 10 ∷ newlines true cs
  | false ↦ let rest = newlines false cs in if c == 10 && after_return then rest else c ∷ rest
]

-- [ \t]+ to one space.
unfoldable pub blanks : Bool → Text → Text
blanks in_run [] = []
blanks in_run (c ∷ cs) = elim (c == 32 || c == 9) [
  | true ↦ let rest = blanks true cs in if in_run then rest else 32 ∷ rest
  | false ↦ c ∷ blanks false cs
]

-- \n{3,} to two: `seen` newlines of the run have been written.
unfoldable pub paragraphs : ℕ → Text → Text
paragraphs seen [] = []
paragraphs seen (c ∷ cs) = elim (c == 10) [
  | true ↦ elim (leb 2 seen) [ true ↦ paragraphs 2 cs | false ↦ 10 ∷ paragraphs (suc seen) cs ]
  | false ↦ c ∷ paragraphs 0 cs
]

unfoldable pub normalise : Text → Text
unfolding strip newlines blanks paragraphs
normalise text = strip (paragraphs 0 (blanks false (newlines false text)))

-- split at \n\s*\n. `piece` is the piece so far; after a newline, `gap` is the white space from it
-- on, and `tail` what follows the last newline of the gap, which is a break if it has two.
pub data Gap : Type 0 where
  outside : Gap
  inside : Text → Text → Bool → Gap

abbrev grow : Text → Gap → Text
grow piece outside = piece
grow piece (inside gap tail broken) = piece ++ gap

abbrev step : ℕ → Gap → Gap
step c outside = if c == 10 then inside (10 ∷ []) [] false else outside
step c (inside gap tail broken) =
    if c == 10
    then inside (gap ++ c ∷ []) [] true
    else inside (gap ++ c ∷ []) (tail ++ c ∷ []) broken

abbrev starts_gap : ℕ → Gap → Bool
starts_gap c outside = c == 10
starts_gap c (inside gap tail broken) = is_space c

abbrev is_broken : Gap → Bool
is_broken outside = false
is_broken (inside gap tail broken) = broken

abbrev tail_of : Gap → Text
tail_of outside = []
tail_of (inside gap tail broken) = tail

unfoldable pub split_breaks : Text → Gap → Text → List Text
unfolding is_space
split_breaks piece gap [] = if is_broken gap then piece ∷ tail_of gap ∷ [] else grow piece gap ∷ []
split_breaks piece gap (c ∷ cs) = elim (starts_gap c gap) [
  | true ↦ split_breaks piece (step c gap) cs
  | false ↦ elim (is_broken gap) [
    | true ↦ piece ∷ split_breaks (tail_of gap ++ c ∷ []) outside cs
    | false ↦ split_breaks (grow piece gap ++ c ∷ []) outside cs
  ]
]

unfoldable pub split_paragraphs : Text → List Text
unfolding split_breaks
split_paragraphs text = split_breaks [] outside text

-- . ! ? and the Arabic question mark and the danda.
abbrev ends_sentence : ℕ → Bool
ends_sentence c = c == 46 || c == 33 || c == 63 || c == 1567 || c == 2404

-- split at white space after one of these: `ended` says that the last character ends a sentence, `skipping` that
-- the scan is in the white space of a split.
unfoldable pub split_ends : Bool → Bool → Text → Text → List Text
unfolding is_space
split_ends ended skipping piece [] = piece ∷ []
split_ends ended skipping piece (c ∷ cs) = elim (is_space c && skipping) [
  | true ↦ split_ends false true piece cs
  | false ↦ elim (is_space c && ended) [
    | true ↦ piece ∷ split_ends false true [] cs
    | false ↦ split_ends (ends_sentence c) false (piece ++ c ∷ []) cs
  ]
]

unfoldable pub split_at_sentences : Text → List Text
unfolding split_ends
split_at_sentences paragraph = split_ends false false [] paragraph
