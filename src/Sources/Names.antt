-- ===== src/Sources/Names.antt =====
-- The names of the sources and the identities of their items, under the requests of
-- app/api/sources.py that write.
use danah_v.Prelude.{
  length, ℕ, suc, Option-cases, String, ◌≡◌, false, Option, none, some, List, [], ◌∷◌, ◌++◌, All,
  All-append, Bool-cases, inl, inr, arith, find_first, modify_first,
}
use danah_v.Enums.{ActorType, Role}
use danah_v.Exceptions.{Error, Result, ok, raise}
use danah_v.Models.{IngestedItem, Db, Scalar, Source, SyncStatus, User}
use danah_v.Session.{Env, Session, Action, pure, ◌>>◌}
use danah_v.Session.Keeps.{
  Keeps-write, Keeps-gate, Both, Keeps, Keeps-if, Keeps-ask, Keeps-attempt, Keeps-bind, Keeps-draw,
  Keeps-one_or, Keeps-pure, Keeps-query, Keeps-throw,
}
use danah_v.Security.{admin_only, analyst_and_above, assert_role, has_role}
use danah_v.Audit.Keeps.{record_audit-Keeps}
use danah_v.Ingestion.{
  set_source, Feeds, RawItem, failed_response, synced_response, SyncResponse, attempted,
  has_source_id, insert_items, item_row, item_rows, persist_items, settle_sync, sync_source,
  sync_source_by_id,
}
use danah_v.Ingestion.Sync.{Deduplicated, sync_source_by_id-Keeps}
use danah_v.Sources.{
  SourceCreate, create_source, has_name, insert_source, new_source, source_out, sync_source_now,
}

-- No source has the name of an earlier one.
abbrev pub ApartFrom : String → List Source → Type 0
ApartFrom name sources = All (λ t. has_name name t ≡ false) sources

abbrev pub DistinctNames : List Source → Type 0
DistinctNames [] = Unit
DistinctNames (s ∷ sources) = All (λ t. has_name t.name s ≡ false) sources × DistinctNames sources

abbrev pub Named : Db → Type 0
Named db = DistinctNames db.sources

append-DistinctNames :
    (sources : List Source) (new : Source)
    → find_first (has_name new.name) sources ≡ none
    → DistinctNames sources
    → DistinctNames (sources ++ new ∷ [])
unfolding find_first
append-DistinctNames [] new h d = (tt, tt)
append-DistinctNames (s ∷ sources) new h (apart, d) = elim (Bool-cases (has_name new.name s)) [
  | inl same ↦ ground (arith, h, same)
  | inr other ↦ (
    All-append _ sources (new ∷ []) apart (other, tt),
    append-DistinctNames sources new (ground (arith, h, other)) d,
  )
]

-- A sync leaves the names as they are.
modify-apart :
    (id : ℕ) (now : ℕ) (status : SyncStatus) (s : Source) (sources : List Source)
    → All (λ t. has_name t.name s ≡ false) sources
    → All
        (λ t. has_name t.name s ≡ false)
        (modify_first (has_source_id id) (attempted now status) sources)
unfolding modify_first
modify-apart id now status s [] h = tt
modify-apart id now status s (t ∷ sources) (h, hs) = elim (Bool-cases (has_source_id id t)) [
  | inl here ↦ rw here (h, hs)
  | inr there ↦ rw there (h, modify-apart id now status s sources hs)
]

modify-DistinctNames :
    (id : ℕ) (now : ℕ) (status : SyncStatus) (sources : List Source)
    → DistinctNames sources
    → DistinctNames (modify_first (has_source_id id) (attempted now status) sources)
unfolding modify_first
modify-DistinctNames id now status [] d = tt
modify-DistinctNames id now status (s ∷ sources) (h, d) = elim (Bool-cases (has_source_id id s)) [
  | inl here ↦ rw here (h, d)
  | inr there ↦
      rw there
        (modify-apart id now status s sources h, modify-DistinctNames id now status sources d)
]

module _ (env : Env) (feeds : Feeds) where
  item_rows-Named :
      (source_id : ℕ) (items : List RawItem) → Keeps Named (item_rows env feeds source_id items)
  unfolding item_rows
  item_rows-Named source_id [] = Keeps-pure Named _
  item_rows-Named source_id (item ∷ items) =
      Keeps-bind Named _ _ (Keeps-draw Named env.uuid4) (λ id.
        Keeps-bind Named _ _ (Keeps-draw Named env.now) (λ now.
          Keeps-bind Named _ _ (item_rows-Named source_id items)
            (λ rows. Keeps-pure Named (item_row env feeds source_id id now item ∷ rows))))

  insert_items-Named : (rows : List IngestedItem) → Keeps Named (insert_items env feeds rows)
  unfolding insert_items
  insert_items-Named [] = Keeps-pure Named (0, 0)
  insert_items-Named (row ∷ rest) =
      Keeps-bind Named _ _ (Keeps-gate Named env.accepts Error.database_error)
        (λ _. record { at = λ s h. h })

  settle_sync-Named :
      (source : Source) (now : ℕ) (r : Result (List RawItem))
      → Keeps Named (settle_sync env feeds source now r)
  unfolding settle_sync persist_items insert_items
  settle_sync-Named source now (raise e) =
      Keeps-bind Named _ _
        (Keeps-write Named (set_source source.id (attempted now (SyncStatus.failure e)))
          (λ db d. modify-DistinctNames source.id now (SyncStatus.failure e) db.sources d))
        (λ _.
          Keeps-bind Named _ _ (Keeps-gate Named env.accepts Error.database_error)
            (λ _. Keeps-pure Named (failed_response source now e)))
  settle_sync-Named source now (ok items) =
      Keeps-bind Named _ _
        (Keeps-bind Named _ _ (item_rows-Named source.id items) insert_items-Named)
        (λ counts.
          Keeps-bind Named _ _
            (Keeps-write Named (set_source source.id (attempted now (SyncStatus.synced counts.0)))
              (λ db d.
                modify-DistinctNames source.id now (SyncStatus.synced counts.0) db.sources d))
            (λ _.
              Keeps-bind Named _ _ (Keeps-gate Named env.accepts Error.database_error)
                (λ _. Keeps-pure Named (synced_response source now (length items) counts))))

  sync_source_by_id-Named : (id : ℕ) → Keeps Named (sync_source_by_id env feeds id)
  unfolding sync_source_by_id sync_source
  sync_source_by_id-Named id = Keeps-bind Named _ _ (Keeps-query Named _) (λ found.
      Keeps-bind Named _ _ (Keeps-one_or Named Error.not_found found) (λ source.
        Keeps-bind Named _ _ (Keeps-draw Named env.now) (λ now.
          Keeps-bind Named _ _ (Keeps-attempt Named _ (Keeps-ask Named (λ n. feeds.fetch n source)))
            (λ items.
              Keeps-bind Named _ _ (Keeps-gate Named feeds.closes Error.danah_error)
                (λ _. settle_sync-Named source now items)))))

-- A request that writes: the details for the audit log are what the route puts there.
pub data SourceRequest : Type 0 where
  create : SourceCreate → List (String × Scalar) → SourceRequest
  sync : ℕ → (SyncResponse → List (String × Scalar)) → SourceRequest

-- Distinct names, and no two items with one identity.
abbrev pub IsTidy : Db → Type 0
IsTidy db = Named db × Deduplicated db

module _ (env : Env) (feeds : Feeds) (user : User) (ip : Option String) where
  unfoldable pub serve : SourceRequest → Action Unit
  unfolding create_source sync_source_now
  serve (SourceRequest.create payload detail) = create_source env user ip payload detail >> pure tt
  serve (SourceRequest.sync id detail) = sync_source_now env user ip feeds id detail >> pure tt

  assert_role-Keeps : (roles : List Role) → Keeps IsTidy (assert_role user roles)
  unfolding assert_role
  assert_role-Keeps roles =
      Keeps-if IsTidy (has_role user roles) _ _ (Keeps-pure IsTidy tt)
        (Keeps-throw IsTidy Error.permission_denied)

  sync_source_by_id-IsTidy : (id : ℕ) → Keeps IsTidy (sync_source_by_id env feeds id)
  sync_source_by_id-IsTidy id = record {
    at = λ s h.
        let names = (sync_source_by_id-Named env feeds id).at s (h.0.0, h.1.0) in
        let items = (sync_source_by_id-Keeps env feeds id).at s (h.0.1, h.1.1) in
        ((names.0, items.0), (names.1, items.1));
  }

  -- A source that is created under a name that no source has.
  create_free-IsTidy :
      (payload : SourceCreate) (detail : List (String × Scalar)) (s : Session)
      → find_first (has_name payload.name) s.current.sources ≡ none
      → Both IsTidy s
      → Both IsTidy (insert_source env user ip payload detail s).1
  unfolding insert_source
  create_free-IsTidy payload detail s free ((names, items), committed) =
      let id = env.uuid4 s.draws in
      let added : Db = record s.current {
        sources = s.current.sources ++ new_source id payload ∷ [];
      } in
      let tidy : IsTidy added =
        (append-DistinctNames s.current.sources (new_source id payload) free names, items) in
      (Keeps-bind IsTidy _ _
          (record_audit-Keeps env IsTidy (λ db e h. h) "source.create" ActorType.user (some user.id)
            (some "source") (some id) ip detail)
          (λ _.
            Keeps-bind IsTidy _ _ (Keeps-draw IsTidy env.now)
              (λ now. Keeps-pure IsTidy (source_out now (new_source id payload) 0)))).at
        (record s { current = added; draws = suc s.draws }) (tidy, committed)

  create_source-IsTidy :
      (payload : SourceCreate) (detail : List (String × Scalar))
      → Keeps IsTidy (create_source env user ip payload detail)
  unfolding create_source
  create_source-IsTidy payload detail = Keeps-bind IsTidy _ _ (assert_role-Keeps admin_only) (λ _.
      record {
        at = λ s h. elim (Option-cases (find_first (has_name payload.name) s.current.sources)) [
          | inl free ↦ rw free (create_free-IsTidy payload detail s free h)
          | inr (taken, found) ↦ rw found h
        ];
      })

  serve-Keeps : (request : SourceRequest) → Keeps IsTidy (serve request)
  unfolding serve sync_source_now
  serve-Keeps (SourceRequest.create payload detail) =
      Keeps-bind IsTidy _ _ (create_source-IsTidy payload detail) (λ _. Keeps-pure IsTidy tt)
  serve-Keeps (SourceRequest.sync id detail) =
      Keeps-bind IsTidy _ _
        (Keeps-bind IsTidy _ _ (assert_role-Keeps analyst_and_above) (λ _.
          Keeps-bind IsTidy _ _ (sync_source_by_id-IsTidy id) (λ result.
            Keeps-bind IsTidy _ _
              (record_audit-Keeps env IsTidy (λ db e h. h) "source.sync" ActorType.user
                (some user.id) (some "source") (some id) ip (detail result))
              (λ _. Keeps-pure IsTidy result))))
        (λ _. Keeps-pure IsTidy tt)

  -- Whoever creates or syncs a source, and whatever a connector gives or raises: no two sources have
  -- one name and no two stored items one identity, neither in what the request sees nor in what is
  -- committed, if that held before.
  pub serve-IsTidy :
      (request : SourceRequest) (s : Session) → Both IsTidy s → Both IsTidy (serve request s).1
  serve-IsTidy request s h = (serve-Keeps request).at s h
