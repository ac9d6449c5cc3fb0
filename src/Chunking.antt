-- ===== src/Chunking.antt =====
-- app/services/rag/chunking.py: a text is cleaned, split into paragraphs, sentences or runs of
-- tokens, and assembled into chunks that overlap by whole units.
pub mod Scan
pub mod Slices
pub mod Overlap
use danah_v.Prelude.{
  ℕ, zero, suc, ◌+◌, ◌==◌, Bool, true, false, not, ◌&&◌, ◌||◌, Option, none, some, List, [], ◌∷◌,
  ◌++◌, ltb, leb, length, take, drop, map, if◌then◌else◌,
}
use danah_v.Models.{Text}
use danah_v.Chunking.Scan.{strip, normalise, split_paragraphs, split_at_sentences, is_blank}

-- tiktoken's cl100k_base.
pub record Encoding : Type 0 where
  pub encode : Text → List ℕ
  pub decode : List ℕ → Text

-- A unit of assembly with its token count.
abbrev pub Piece : Type 0
Piece = Text × ℕ

pub record Chunk : Type 0 where
  pub index : ℕ
  pub content : Text
  pub token_count : ℕ

abbrev pub join : Text → List Text → Text
join sep [] = []
join sep (t ∷ []) = t
join sep (t ∷ u ∷ ts) = t ++ (sep ++ join sep (u ∷ ts))

-- [ids[i : i + size] for i in range(0, len(ids), size)], by fuel.
unfoldable pub slices : {A : Type 0} → ℕ → ℕ → List A → List (List A)
slices size zero ids = []
slices size (suc fuel) [] = []
slices size (suc fuel) (x ∷ ids) = take size (x ∷ ids) ∷ slices size fuel (drop size (x ∷ ids))

abbrev pub tokens_of : List Piece → ℕ
tokens_of [] = 0
tokens_of ((t, n) ∷ parts) = n + tokens_of parts

abbrev pub reverse_onto : {A : Type 0} → List A → List A → List A
reverse_onto [] acc = acc
reverse_onto (x ∷ xs) acc = reverse_onto xs (x ∷ acc)

-- _carry_overlap: the loop over the reversed parts, with what is carried and its total.
unfoldable pub carry : ℕ → List Piece → List Piece → ℕ → List Piece × ℕ
carry overlap [] carried total = (carried, total)
carry overlap ((t, n) ∷ parts) carried total = elim (ltb overlap (total + n)) [
  | true ↦ (carried, total)
  | false ↦ carry overlap parts ((t, n) ∷ carried) (total + n)
]

unfoldable pub carry_overlap : List Piece → ℕ → List Piece × ℕ
unfolding carry
carry_overlap parts overlap =
    if overlap == 0 then ([], 0) else carry overlap (reverse_onto parts []) [] 0

abbrev pub is_empty : List Piece → Bool
is_empty [] = true
is_empty (p ∷ parts) = false

abbrev pub last_chunk : List Piece → List (List Piece)
last_chunk [] = []
last_chunk (p ∷ parts) = (p ∷ parts) ∷ []

-- The loop of chunk_text: the parts of the chunks from here on, with those of the chunk that is
-- being filled and their tokens.
unfoldable pub assemble : ℕ → ℕ → List Piece → List Piece → ℕ → List (List Piece)
unfolding carry_overlap
assemble size overlap [] current current_tokens = last_chunk current
assemble size overlap ((t, n) ∷ units) current current_tokens =
    elim (not (is_empty current) && ltb size (current_tokens + n)) [
      | true ↦
          let (kept, total) = carry_overlap current overlap in
          current ∷ assemble size overlap units (kept ++ (t, n) ∷ []) (total + n)
      | false ↦ assemble size overlap units (current ++ (t, n) ∷ []) (current_tokens + n)
    ]

module _ (enc : Encoding) where
  abbrev pub count_tokens : Text → ℕ
  count_tokens text = length (enc.encode text)

  -- One slice per `size` tokens, so as many as there are tokens are enough.
  unfoldable pub split_by_tokens : Text → ℕ → List Text
  unfolding slices
  split_by_tokens text size =
      map enc.decode (slices size (length (enc.encode text)) (enc.encode text))

  abbrev pub flushed : List Text → List Text
  flushed [] = []
  flushed (t ∷ ts) = join (32 ∷ []) (t ∷ ts) ∷ []

  -- The loop of _split_sentences: the pieces from here on, with the buffer and its token count.
  unfoldable pub pack : ℕ → List Text → List Text → ℕ → List Text
  unfolding split_by_tokens
  pack size [] buffer buffer_tokens = flushed buffer
  pack size (s ∷ sentences) buffer buffer_tokens =
      let sentence = strip s in
      let tokens = count_tokens sentence in
      elim (is_blank sentence) [
        | true ↦ pack size sentences buffer buffer_tokens
        | false ↦ elim (ltb size tokens) [
          | true ↦ flushed buffer ++ (split_by_tokens sentence size ++ pack size sentences [] 0)
          | false ↦ elim (ltb size (buffer_tokens + tokens)) [
            | true ↦ join (32 ∷ []) buffer ∷ pack size sentences (sentence ∷ []) tokens
            | false ↦ pack size sentences (buffer ++ sentence ∷ []) (buffer_tokens + tokens)
          ]
        ]
      ]

  unfoldable pub split_sentences : Text → ℕ → List Text
  unfolding pack split_at_sentences
  split_sentences paragraph size = pack size (split_at_sentences paragraph) [] 0

  abbrev pub counted : Text → Piece
  counted text = (text, count_tokens text)

  unfoldable pub units_of : ℕ → List Text → List Piece
  unfolding split_sentences
  units_of size [] = []
  units_of size (paragraph ∷ paragraphs) =
      let para = strip paragraph in
      let rest = units_of size paragraphs in
      if is_blank para
      then rest
      else if leb (count_tokens para) size
      then counted para ∷ rest
      else map counted (split_sentences para size) ++ rest

  unfoldable pub split_into_units : Text → ℕ → List Piece
  unfolding units_of split_paragraphs
  split_into_units text size = units_of size (split_paragraphs text)

  -- _emit
  abbrev pub content_of : List Piece → Text
  content_of parts = strip (join (10 ∷ 10 ∷ []) (map (λ p. p.0) parts))

  abbrev pub emit : ℕ → List Piece → Chunk
  emit index parts = record {
    index = index;
    content = content_of parts;
    token_count = count_tokens (content_of parts);
  }

  unfoldable pub emit_all : ℕ → List (List Piece) → List Chunk
  emit_all index [] = []
  emit_all index (parts ∷ rest) = emit index parts ∷ emit_all (suc index) rest

  -- chunk_text; `none` is the ValueError.
  unfoldable pub chunk_text : Text → ℕ → ℕ → Option (List Chunk)
  unfolding emit_all split_into_units normalise
  chunk_text text size overlap =
      if size == 0 || leb size overlap
      then none
      else if is_blank (normalise text)
      then some []
      else some (emit_all 0 (assemble size overlap (split_into_units (normalise text) size) [] 0))
