-- ===== src/Webhook/Floor.antt =====
-- No pushed item falls below the floor of its source (app/services/ingestion/webhook.py).
use danah_v.Prelude.{
  ◌≤◌, ◌≡◌, refl, Option, none, some, List, [], ◌∷◌, arith, All, length, Bool-cases, inl, inr,
}
use danah_v.Enums.{Classification, classification_rank}
use danah_v.Exceptions.{Error, Result, ok, raise}
use danah_v.Ingestion.{RawItem, is_empty_text}
use danah_v.Webhook.{PushedItem, and_item, classification, to_raw_item, to_raw_items}

abbrev pub AtLeast : Classification → RawItem → Type 0
AtLeast floor item = classification_rank floor ≤ classification_rank item.classification

classification-floor :
    (declared : Option Classification) (floor : Classification)
    → classification_rank floor ≤ classification_rank (classification declared floor)
unfolding classification
classification-floor none floor = omega arith
classification-floor (some declared) floor = ground arith

-- What a batch becomes: as many items, none below the floor, or the refusal of the batch.
abbrev pub Accepted : Classification → List PushedItem → Result (List RawItem) → Type 0
Accepted floor items (ok raw) = (length raw ≡ length items) × All (AtLeast floor) raw
Accepted floor items (raise e) = e ≡ Error.invalid_request

and_item-Accepted :
    (floor : Classification) (item : PushedItem) (items : List PushedItem)
    (rest : Result (List RawItem))
    → Accepted floor items rest
    → Accepted floor (item ∷ items) (and_item (to_raw_item floor item) rest)
unfolding to_raw_item
and_item-Accepted floor item items (ok raw) h = elim (Bool-cases (is_empty_text item.title)) [
  | inl empty ↦ rw empty refl
  | inr named ↦ rw named (omega (arith, h.0), (classification-floor item.declared floor, h.1))
]
and_item-Accepted floor item items (raise e) h = elim (Bool-cases (is_empty_text item.title)) [
  | inl empty ↦ rw empty refl
  | inr named ↦ rw named h
]

-- A batch is refused as invalid, or it becomes as many items as were pushed, and none of them has a
-- classification below the floor of its source, whatever the producer declares.
pub to_raw_items-Accepted :
    (floor : Classification) (items : List PushedItem)
    → Accepted floor items (to_raw_items floor items)
unfolding to_raw_items
to_raw_items-Accepted floor [] = (refl, tt)
to_raw_items-Accepted floor (item ∷ items) =
    and_item-Accepted floor item items (to_raw_items floor items)
      (to_raw_items-Accepted floor items)
