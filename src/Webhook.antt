-- ===== src/Webhook.antt =====
-- app/services/ingestion/webhook.py: a signed batch that a producer pushes. HMAC and the reading of
-- the payload's texts are parameters.
pub mod Floor
use danah_v.Prelude.{
  ℕ, ◌+◌, Bool, true, false, ◌&&◌, not, Option, none, some, List, [], ◌∷◌, ◌==◌, ltb, leb,
  if◌then◌else◌,
}
use danah_v.Enums.{Classification, classification_rank}
use danah_v.Exceptions.{Error, Result, ok, raise}
use danah_v.Models.{Source, SyncStatus, Text}
use danah_v.Session.{Env, Action, pure, write, draw, of_result, ◌>>=◌, ◌>>◌}
use danah_v.Audit.{same_text}
use danah_v.Chunking.Scan.{strip}
use danah_v.Ingestion.{Feeds, RawItem, attempted, is_empty_text, persist_items, set_source}

-- An entry of the batch, with the texts that _as_str reads (the empty text where it reads none), the
-- parsed time and the classification that the producer declares, where it is one.
pub record PushedItem : Type 0 where
  pub title : Text
  pub external_id : Text
  pub id : Text
  pub url : Text
  pub published_at : Option ℕ
  pub declared : Option Classification

-- A prefix, and what comes after it.
abbrev pub after_prefix : Text → Text → Option Text
after_prefix [] t = some t
after_prefix (c ∷ p) [] = none
after_prefix (c ∷ p) (d ∷ t) = if c == d then after_prefix p t else none

abbrev pub is_ascii : Text → Bool
is_ascii [] = true
is_ascii (c ∷ t) = ltb c 128 && is_ascii t

-- "sha256="
abbrev pub signature_prefix : Text
signature_prefix = 115 ∷ 104 ∷ 97 ∷ 50 ∷ 53 ∷ 54 ∷ 61 ∷ []

abbrev pub compared : Text → Text → Bool
compared provided expected =
    not (is_empty_text provided) && (is_ascii provided && same_text provided expected)

-- `hmac body secret` is the digest in hexadecimal; the secret is a text, which may be empty.
unfoldable pub verify_signature : (Text → Text → Text) → (Text → Text) → Text → Text → Text → Bool
verify_signature hmac lower body signature secret =
    if is_empty_text signature
    then false
    else if is_empty_text secret
    then false
    else elim (after_prefix signature_prefix signature) [
      | none ↦ false
      | some provided ↦ compared (lower (strip provided)) (hmac body secret)
    ]

-- _classification: a payload may raise the floor of the source, and not lower it.
unfoldable pub classification : Option Classification → Classification → Classification
classification none floor = floor
classification (some declared) floor =
    if ltb (classification_rank floor) (classification_rank declared) then declared else floor

abbrev pub first_text : Text → Text → Text
first_text [] other = other
first_text (c ∷ t) other = c ∷ t

-- _to_raw_item: an item without a title is refused.
unfoldable pub to_raw_item : Classification → PushedItem → Result RawItem
unfolding classification
to_raw_item floor item =
    if is_empty_text item.title
    then raise Error.invalid_request
    else ok (record {
      external_id = first_text item.external_id (first_text item.id item.url);
      title = item.title;
      url = item.url;
      published_at = item.published_at;
      classification = classification item.declared floor;
    })

abbrev pub and_item : Result RawItem → Result (List RawItem) → Result (List RawItem)
and_item (raise e) rest = raise e
and_item (ok item) (raise e) = raise e
and_item (ok item) (ok items) = ok (item ∷ items)

-- One item that is refused refuses the batch.
unfoldable pub to_raw_items : Classification → List PushedItem → Result (List RawItem)
unfolding to_raw_item
to_raw_items floor [] = ok []
to_raw_items floor (item ∷ items) = and_item (to_raw_item floor item) (to_raw_items floor items)

-- _configured_classification: what the source is configured with, where it is a classification.
abbrev pub configured_classification : Option Classification → Classification
configured_classification none = Classification.public
configured_classification (some c) = c

unfoldable pub ingest_webhook_payload :
    Env → Feeds → Source → Option Classification → List PushedItem → Action (ℕ × ℕ)
unfolding to_raw_items
ingest_webhook_payload env feeds source configured items = do
  raw_items ← of_result (to_raw_items (configured_classification configured) items)
  counts ← persist_items env feeds source.id raw_items
  now ← draw env.now
  write (set_source source.id (attempted now (SyncStatus.synced counts.0)))
  pure counts
