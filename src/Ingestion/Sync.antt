-- ===== src/Ingestion/Sync.antt =====
-- What a sync does to the items and to its source (app/services/ingestion/runner.py).
use danah_v.Prelude.{
  ℕ, suc, ◌+◌, ◌-◌, ◌≡◌, true, refl, sym, subst, ap, List, [], ◌∷◌, length, map, arith,
}
use danah_v.Exceptions.{Error, Result, ok, raise}
use danah_v.Models.{Db, IngestedItem, Source, SyncStatus}
use danah_v.Session.{Env, Session}
use danah_v.Session.Keeps.{
  Keeps-gate, Keeps-ask, Keeps-attempt, Both, Keeps, Keeps-pure, Keeps-query, Keeps-draw,
  Keeps-write, Keeps-bind, Keeps-one_or,
}
use danah_v.Ingestion.{
  Feeds, RawItem, failed_response, synced_response, attempted, set_source, dedup_hash, insert_items,
  insert_new, item_row, item_rows, persist_items, settle_sync, sync_source, sync_source_by_id,
}
use danah_v.Ingestion.Dedup.{
  AllKnown, DistinctHashes, insert_new-again, insert_new-count, insert_new-Distinct,
  insert_new-known, insert_new-most,
}

abbrev pub Deduplicated : Db → Type 0
Deduplicated db = DistinctHashes db.items

-- The database takes whatever is written.
abbrev pub Accepts : Env → Type 0
Accepts env = (n : ℕ) → env.accepts n ≡ true

module _ (env : Env) (feeds : Feeds) where
  -- The rows that are built: one for each item, with the hash of its identity.
  abbrev Built : ℕ → List RawItem → List IngestedItem → Type 0
  Built source_id items rows =
      (map (λ r. r.dedup_hash) rows ≡ map (dedup_hash env feeds source_id) items)
      × (length rows ≡ length items)

  item_rows-Built :
      (source_id : ℕ) (items : List RawItem) (s : Session)
      → (rows : List IngestedItem) × (n : ℕ) × (item_rows env feeds source_id items s
          ≡ (ok rows, record s { draws = n }))
        × Built source_id items rows
  unfolding item_rows
  item_rows-Built source_id [] s = ([], s.draws, refl, (refl, refl))
  item_rows-Built source_id (item ∷ items) s =
      let (rows, n, e, (hashes, count)) =
        item_rows-Built source_id items (record s { draws = suc (suc s.draws) }) in
      (
        item_row env feeds source_id (env.uuid4 s.draws) (env.now (suc s.draws)) item ∷ rows,
        n,
        rw e refl,
        (ap (λ l. dedup_hash env feeds source_id item ∷ l) hashes, omega (arith, count)),
      )

  -- What is stored when the items have been persisted, and what is reported.
  pub record Persisted (source_id : ℕ) (items : List RawItem) (s : Session) : Type 0 where
    pub created : ℕ
    pub duplicates : ℕ
    pub end : Session
    pub returned : persist_items env feeds source_id items s ≡ (ok (created, duplicates), end)
    pub grown : length end.current.items ≡ length s.current.items + created
    pub counted : created + duplicates ≡ length items
    pub stored : AllKnown end.current.items (map (dedup_hash env feeds source_id) items)
    pub frame : end.current.sources ≡ s.current.sources
    pub distinct : Deduplicated s.current → Deduplicated end.current

  inserted :
      (taken : Accepts env) (rows : List IngestedItem) (s : Session)
      → insert_items env feeds rows s ≡ (
        ok ((insert_new rows s.current.items).1, length rows - (insert_new rows s.current.items).1),
        record s { current = record s.current { items = (insert_new rows s.current.items).0 } },
      )
  unfolding insert_items insert_new
  inserted taken [] s = refl
  inserted taken (row ∷ rows) s = rw (taken s.draws) refl

  pub persist_items-Persisted :
      (source_id : ℕ) (items : List RawItem) (s : Session)
      → Accepts env
      → Persisted source_id items s
  unfolding persist_items
  persist_items-Persisted source_id items s taken =
      let (rows, n, e, (hashes, count)) = item_rows-Built source_id items s in
      record {
        created = (insert_new rows s.current.items).1;
        duplicates = length rows - (insert_new rows s.current.items).1;
        end = record s {
          current = record s.current { items = (insert_new rows s.current.items).0 };
          draws = n;
        };
        returned = rw e (inserted taken rows (record s { draws = n }));
        grown = insert_new-count rows s.current.items;
        counted = omega (arith, count, insert_new-most rows s.current.items);
        stored =
            subst (AllKnown (insert_new rows s.current.items).0) hashes
              (insert_new-known rows s.current.items);
        frame = refl;
        distinct = insert_new-Distinct rows s.current.items;
      }

  persist_items-known :
      (source_id : ℕ) (items : List RawItem) (s : Session)
      → Accepts env
      → AllKnown s.current.items (map (dedup_hash env feeds source_id) items)
      → ((persist_items env feeds source_id items s).0 ≡ ok (0, length items))
        × ((persist_items env feeds source_id items s).1.current.items ≡ s.current.items)
  unfolding persist_items
  persist_items-known source_id items s taken h =
      let (rows, n, e, (hashes, count)) = item_rows-Built source_id items s in
      let nothing =
        insert_new-again rows s.current.items (subst (AllKnown s.current.items) (sym hashes) h) in
      rw (e, inserted taken rows (record s { draws = n }), nothing)
        (ap (λ m. ok (0, m)) (omega (arith, count)), refl)

  -- Where the database takes what is written, persisting the same items again, whatever was drawn in
  -- between, writes nothing: all of them are counted as duplicates, and the stored items stay as
  -- they are.
  pub persist_items-again :
      (source_id : ℕ) (items : List RawItem) (s : Session)
      → Accepts env
      → let first = persist_items env feeds source_id items s in
        let second = persist_items env feeds source_id items first.1 in
        (second.0 ≡ ok (0, length items)) × (second.1.current.items ≡ first.1.current.items)
  persist_items-again source_id items s taken =
      let p = persist_items-Persisted source_id items s taken in
      subst
        (λ first.
          ((persist_items env feeds source_id items first.1).0 ≡ ok (0, length items))
          × ((persist_items env feeds source_id items first.1).1.current.items
              ≡ first.1.current.items))
        (sym p.returned) (persist_items-known source_id items p.end taken p.stored)

  insert_items-Keeps : (rows : List IngestedItem) → Keeps Deduplicated (insert_items env feeds rows)
  unfolding insert_items
  insert_items-Keeps [] = Keeps-pure Deduplicated (0, 0)
  insert_items-Keeps (row ∷ rest) =
      let rows = row ∷ rest in
      Keeps-bind Deduplicated _ _ (Keeps-gate Deduplicated env.accepts Error.database_error) (λ _.
        Keeps-bind Deduplicated _ _ (Keeps-query Deduplicated _) (λ created.
          Keeps-bind Deduplicated _ _
            (Keeps-write Deduplicated (λ db. record db { items = (insert_new rows db.items).0 })
              (λ db d. insert_new-Distinct rows db.items d))
            (λ _. Keeps-pure Deduplicated (created, length rows - created))))

  item_rows-Keeps :
      (source_id : ℕ) (items : List RawItem)
      → Keeps Deduplicated (item_rows env feeds source_id items)
  item_rows-Keeps source_id items = record {
    at = λ s h.
        let (rows, n, e, built) = item_rows-Built source_id items s in
        subst (λ out. Both Deduplicated out.1) (sym e) h;
  }

  settle_sync-Keeps :
      (source : Source) (now : ℕ) (r : Result (List RawItem))
      → Keeps Deduplicated (settle_sync env feeds source now r)
  unfolding settle_sync persist_items
  settle_sync-Keeps source now (raise e) =
      Keeps-bind Deduplicated _ _
        (Keeps-write Deduplicated (set_source source.id (attempted now (SyncStatus.failure e)))
          (λ db d. d))
        (λ _.
          Keeps-bind Deduplicated _ _ (Keeps-gate Deduplicated env.accepts Error.database_error)
            (λ _. Keeps-pure Deduplicated (failed_response source now e)))
  settle_sync-Keeps source now (ok items) =
      Keeps-bind Deduplicated _ _
        (Keeps-bind Deduplicated _ _ (item_rows-Keeps source.id items) insert_items-Keeps)
        (λ counts.
          Keeps-bind Deduplicated _ _
            (Keeps-write Deduplicated
              (set_source source.id (attempted now (SyncStatus.synced counts.0))) (λ db d. d))
            (λ _.
              Keeps-bind Deduplicated _ _ (Keeps-gate Deduplicated env.accepts Error.database_error)
                (λ _. Keeps-pure Deduplicated (synced_response source now (length items) counts))))

  -- Whichever source is synced and whatever its connector gives or raises, no two stored items have
  -- one identity, if none had before: neither in what the sync sees nor in what is committed.
  pub sync_source_by_id-Keeps : (id : ℕ) → Keeps Deduplicated (sync_source_by_id env feeds id)
  unfolding sync_source_by_id sync_source
  sync_source_by_id-Keeps id = Keeps-bind Deduplicated _ _ (Keeps-query Deduplicated _) (λ found.
      Keeps-bind Deduplicated _ _ (Keeps-one_or Deduplicated Error.not_found found) (λ source.
        Keeps-bind Deduplicated _ _ (Keeps-draw Deduplicated env.now) (λ now.
          Keeps-bind Deduplicated _ _
            (Keeps-attempt Deduplicated _ (Keeps-ask Deduplicated (λ n. feeds.fetch n source)))
            (λ items.
              Keeps-bind Deduplicated _ _ (Keeps-gate Deduplicated feeds.closes Error.danah_error)
                (λ _. settle_sync-Keeps source now items)))))
