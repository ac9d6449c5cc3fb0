-- ===== src/Ingestion/Dedup.antt =====
-- No two items of one identity are stored (persist_items of app/services/ingestion/runner.py).
use danah_v.Prelude.{
  ◌+◌, ◌≤◌, ◌≡◌, refl, sym, subst, ◌∙◌, suc, true, false, ◌||◌, List, [], ◌∷◌, ◌++◌, All, length,
  length-append, map, arith, inl, inr, Bool-cases,
}
use danah_v.Models.{IngestedItem, Text}
use danah_v.Audit.{same_text}
use danah_v.Ingestion.{insert_new, known}

same_text_sym : (a b : Text) → same_text a b ≡ same_text b a
same_text_sym [] [] = refl
same_text_sym [] (y ∷ b) = refl
same_text_sym (x ∷ a) [] = refl
same_text_sym (x ∷ a) (y ∷ b) = ground (arith, same_text_sym a b)

same_text_self : (a : Text) → same_text a a ≡ true
same_text_self [] = refl
same_text_self (x ∷ a) = ground (arith, same_text_self a)

known-append :
    (hash : Text) (items more : List IngestedItem)
    → known hash (items ++ more) ≡ (known hash items || known hash more)
known-append hash [] more = refl
known-append hash (i ∷ items) more = ground (arith, known-append hash items more)

-- No later item has the identity of an earlier one: the unique key on dedup_hash.
abbrev pub DistinctHashes : List IngestedItem → Type 0
DistinctHashes [] = Unit
DistinctHashes (i ∷ items) = (known i.dedup_hash items ≡ false) × DistinctHashes items

DistinctHashes-append :
    (items : List IngestedItem) (row : IngestedItem)
    → known row.dedup_hash items ≡ false
    → DistinctHashes items
    → DistinctHashes (items ++ row ∷ [])
DistinctHashes-append [] row absent d = (refl, tt)
DistinctHashes-append (i ∷ items) row absent (alone, d) = (
  ground (
    arith,
    known-append i.dedup_hash items (row ∷ []),
    same_text_sym i.dedup_hash row.dedup_hash,
  ),
  DistinctHashes-append items row (ground arith) d,
)

insert_new-old :
    (row : IngestedItem) (rows table : List IngestedItem)
    → known row.dedup_hash table ≡ true
    → insert_new (row ∷ rows) table ≡ insert_new rows table
unfolding insert_new
insert_new-old row rows table h = rw (insert_new, h) refl

insert_new-new :
    (row : IngestedItem) (rows table : List IngestedItem)
    → known row.dedup_hash table ≡ false
    → insert_new (row ∷ rows) table
      ≡ ((insert_new rows (table ++ row ∷ [])).0, suc (insert_new rows (table ++ row ∷ [])).1)
unfolding insert_new
insert_new-new row rows table h = rw (insert_new, h) refl

pub insert_new-Distinct :
    (rows table : List IngestedItem)
    → DistinctHashes table
    → DistinctHashes (insert_new rows table).0
unfolding insert_new
insert_new-Distinct [] table d = d
insert_new-Distinct (row ∷ rows) table d = elim (Bool-cases (known row.dedup_hash table)) [
  | inl old ↦ rw (insert_new-old row rows table old) (insert_new-Distinct rows table d)
  | inr new ↦
      rw (insert_new-new row rows table new)
        (insert_new-Distinct rows (table ++ row ∷ []) (DistinctHashes-append table row new d))
]

pub insert_new-count :
    (rows table : List IngestedItem)
    → length (insert_new rows table).0 ≡ length table + (insert_new rows table).1
unfolding insert_new
insert_new-count [] table = omega arith
insert_new-count (row ∷ rows) table = elim (Bool-cases (known row.dedup_hash table)) [
  | inl old ↦ rw (insert_new-old row rows table old) (insert_new-count rows table)
  | inr new ↦
      rw (insert_new-new row rows table new)
        (omega (arith, insert_new-count rows (table ++ row ∷ []), length-append table (row ∷ [])))
]

insert_new-keeps :
    (hash : Text) (rows table : List IngestedItem)
    → known hash table ≡ true
    → known hash (insert_new rows table).0 ≡ true
unfolding insert_new
insert_new-keeps hash [] table h = h
insert_new-keeps hash (row ∷ rows) table h = elim (Bool-cases (known row.dedup_hash table)) [
  | inl old ↦ rw (insert_new-old row rows table old) (insert_new-keeps hash rows table h)
  | inr new ↦ rw (insert_new-new row rows table new) (
      insert_new-keeps hash rows (table ++ row ∷ [])
        (ground (arith, known-append hash table (row ∷ []))))
]

abbrev pub AllKnown : List IngestedItem → List Text → Type 0
AllKnown table hashes = All (λ hash. known hash table ≡ true) hashes

-- Every row that was given is stored afterwards, as itself or as an older row of its identity.
pub insert_new-known :
    (rows table : List IngestedItem)
    → AllKnown (insert_new rows table).0 (map (λ r. r.dedup_hash) rows)
unfolding insert_new
insert_new-known [] table = tt
insert_new-known (row ∷ rows) table = elim (Bool-cases (known row.dedup_hash table)) [
  | inl old ↦
      subst (λ out. AllKnown out.0 (map (λ r. r.dedup_hash) (row ∷ rows)))
        (sym (insert_new-old row rows table old))
        (insert_new-keeps row.dedup_hash rows table old, insert_new-known rows table)
  | inr new ↦
      subst (λ out. AllKnown out.0 (map (λ r. r.dedup_hash) (row ∷ rows)))
        (sym (insert_new-new row rows table new))
        (
          insert_new-keeps row.dedup_hash rows (table ++ row ∷ []) (
              ground (
                arith,
                known-append row.dedup_hash table (row ∷ []),
                same_text_self row.dedup_hash,
              )),
          insert_new-known rows (table ++ row ∷ []),
        )
]

-- Rows whose identities are all stored change nothing.
pub insert_new-again :
    (rows table : List IngestedItem)
    → AllKnown table (map (λ r. r.dedup_hash) rows)
    → insert_new rows table ≡ (table, 0)
unfolding insert_new
insert_new-again [] table h = refl
insert_new-again (row ∷ rows) table (old, h) =
    insert_new-old row rows table old ∙ insert_new-again rows table h

pub insert_new-most : (rows table : List IngestedItem) → (insert_new rows table).1 ≤ length rows
unfolding insert_new
insert_new-most [] table = omega arith
insert_new-most (row ∷ rows) table = elim (Bool-cases (known row.dedup_hash table)) [
  | inl old ↦ rw (insert_new-old row rows table old) (omega (arith, insert_new-most rows table))
  | inr new ↦
      rw (insert_new-new row rows table new)
        (omega (arith, insert_new-most rows (table ++ row ∷ [])))
]
