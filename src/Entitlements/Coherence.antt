-- ===== src/Entitlements/Coherence.antt =====
-- The cache never changes an answer: a served snapshot is what the tables give now.
use chatfolio_backend.Prelude.{
  ℕ, ◌+◌, ◌≤◌, ◌<◌, ◌≡◌, refl, ◌≢◌, ◌⊎◌, inl, inr, Bool, ◌&&◌, Option, none, some, List, [], ◌∷◌,
  ltb, ◌==◌, if◌then◌else◌, get_or, first_row, where_rows, not, arith, Bool-cases, ◌∙◌, sym,
}
use chatfolio_backend.Errors.{Result, ok, err}
use chatfolio_backend.Time.Calendar.{DateTime, moment}
use chatfolio_backend.Models.Billing.{Db}
use chatfolio_backend.Models.Redis.{Redis, SnapshotRow, command-cases, command-up}
use chatfolio_backend.Entitlements.{Entitlements}
use chatfolio_backend.Entitlements.Resolve.{unexpired, resolve}
use chatfolio_backend.Entitlements.Snapshot.{resolve-IsFresh}
use chatfolio_backend.Entitlements.Cache.{
  catalog_version, bump_catalog_version, has_key, fetch, dropped, stored, get_entitlements,
  set_entitlements, invalidate,
}
use chatfolio_backend.Entitlements.Service.{ttl_for, store, serve, get}

abbrev pub current : Redis → ℕ
current r = get_or 0 r.catalog_version

-- The snapshot was true at some time up to now.
abbrev pub WasTrue : Db → DateTime → ℕ → Entitlements → Type 0
WasTrue db now user e = (t : DateTime) × (moment t ≤ moment now) × (resolve db user t ≡ ok e)

pub record IsCoherent (db : Db) (now : DateTime) (r : Redis) : Type 0 where
  pub past :
      (user : ℕ) (e : Entitlements) → fetch (current r) user r ≡ some e → WasTrue db now user e
  pub no_future : (version user : ℕ) → current r < version → fetch version user r ≡ none

find-dropped :
    (v u v' u' : ℕ) (rows : List SnapshotRow)
    → first_row (has_key v' u') (where_rows (λ row. not (has_key v u row)) rows)
      ≡ (if (v == v') && (u == u') then none else first_row (has_key v' u') rows)
find-dropped v u v' u' [] = ground arith
find-dropped v u v' u' (x ∷ rows) = ground (arith, find-dropped v u v' u' rows)

fetch-dropped :
    (v u v' u' : ℕ) (r : Redis)
    → fetch v' u' (dropped v u r) ≡ (if (v == v') && (u == u') then none else fetch v' u' r)
fetch-dropped v u v' u' r = ground (arith, find-dropped v u v' u' r.snapshots)

fetch-stored :
    (v u v' u' : ℕ) (e : Entitlements) (ttl : ℕ) (r : Redis)
    → fetch v' u' (stored v u e ttl r) ≡ (if (v == v') && (u == u') then some e else fetch v' u' r)
fetch-stored v u v' u' e ttl r = ground (arith, find-dropped v u v' u' r.snapshots)

-- Coherence looks only at the keys.
same_keys :
    {db : Db} {now : DateTime} {r : Redis} (fs : List Bool)
    → IsCoherent db now r
    → IsCoherent db now (record r { faults = fs })
same_keys fs c = record { past = c.past; no_future = c.no_future }

-- Reading the version gives the right one, or 0 after a failure, and changes no key.
version-cases :
    (r : Redis)
    → (v : ℕ) × (fs : List Bool) × (catalog_version r ≡ (v, record r { faults = fs }))
      × (v ≤ current r)
unfolding catalog_version
version-cases r =
    let (fs, outcome) = command-cases (λ s. (s.catalog_version, s)) r in
    elim outcome [ inl e ↦ (0, fs, rw e, omega arith) | inr e ↦ (current r, fs, rw e, omega arith) ]

stored-IsCoherent :
    {db : Db} {now : DateTime} {r : Redis} (v user : ℕ) (e : Entitlements) (ttl : ℕ)
    → v ≤ current r
    → WasTrue db now user e
    → IsCoherent db now r
    → IsCoherent db now (stored v user e ttl r)
stored-IsCoherent {db} {now} {r} v user e ttl le w c = record { past = past; no_future = future }
  where
    hit-or-old :
        (u : ℕ) (x : Entitlements)
        → fetch (current r) u (stored v user e ttl r) ≡ some x
        → ((x ≡ e) × (user ≡ u)) ⊎ (fetch (current r) u r ≡ some x)
    hit-or-old u x h = ground (arith, fetch-stored v user (current r) u e ttl r)

    past :
        (u : ℕ) (x : Entitlements)
        → fetch (current r) u (stored v user e ttl r) ≡ some x
        → WasTrue db now u x
    past u x h = elim (hit-or-old u x h) [
      | inl (same, mine) ↦ rw (same, ← mine) w
      | inr old ↦ c.past u x old
    ]

    future : (v' u : ℕ) → current r < v' → fetch v' u (stored v user e ttl r) ≡ none
    future v' u h = ground (arith, fetch-stored v user v' u e ttl r, c.no_future v' u h)

-- Storing a true snapshot keeps the cache coherent, also where the version was misread.
pub set_entitlements-IsCoherent :
    {db : Db} {now : DateTime} {r : Redis} (user : ℕ) (e : Entitlements) (ttl : ℕ)
    → WasTrue db now user e
    → IsCoherent db now r
    → IsCoherent db now (set_entitlements user e ttl r)
unfolding set_entitlements
set_entitlements-IsCoherent {db} {now} {r} user e ttl w c =
    let (v, fs, read, le) = version-cases r in
    let (fs', outcome) =
      command-cases (λ s. (tt, stored v user e ttl s)) (record r { faults = fs }) in
    rw (read, set_entitlements)
      (elim outcome [
        | inl failed ↦ rw failed (same_keys fs' c)
        | inr done ↦ rw done (stored-IsCoherent v user e ttl le w (same_keys fs' c))
      ])

-- What a read of the cache answers: nothing, or the row under the version that was read.
get_entitlements-cases :
    (user : ℕ) (r : Redis)
    → (o : Option Entitlements) × (fs : List Bool) × (get_entitlements user r
        ≡ (o, record r { faults = fs }))
      × ((o ≡ none) ⊎ (o ≡ fetch (catalog_version r).0 user r))
unfolding get_entitlements
get_entitlements-cases user r =
    let (v, fs, read, _) = version-cases r in
    let (fs', outcome) = command-cases (λ s. (fetch v user s, s)) (record r { faults = fs }) in
    elim outcome [
      | inl failed ↦ (none, fs', rw (read, failed), inl refl)
      | inr done ↦ (fetch v user r, fs', rw (read, done), inr (rw read))
    ]

store-IsCoherent :
    {db : Db} {now : DateTime} {r : Redis} (user : ℕ)
    → IsCoherent db now r
    → IsCoherent db now (store user now (resolve db user now) r).1
unfolding store
store-IsCoherent {db} {now} {r} user c = go (resolve db user now) refl
  where
    go :
        (x : Result Entitlements)
        → resolve db user now ≡ x
        → IsCoherent db now (store user now x r).1
    go (err x) h = c
    go (ok e) h = elim (Bool-cases (ltb 0 (ttl_for e.valid_until now))) [
      | inl positive ↦
          rw positive
            (set_entitlements-IsCoherent user e (ttl_for e.valid_until now) (now, omega arith, h) c)
      | inr spent ↦ rw spent c
    ]

serve-IsCoherent :
    {db : Db} {now : DateTime} {r : Redis} (user : ℕ) (o : Option Entitlements)
    → IsCoherent db now r
    → IsCoherent db now (serve db user now o r).1
unfolding serve
serve-IsCoherent user none c = store-IsCoherent user c
serve-IsCoherent {db} {now} {r} user (some e) c = elim (Bool-cases (unexpired now e.valid_until)) [
  | inl fresh ↦ rw fresh c
  | inr stale ↦ rw stale (store-IsCoherent user c)
]

-- Whatever commands fail, `get` leaves a coherent cache coherent.
pub get-IsCoherent :
    {db : Db} {now : DateTime} {r : Redis} (user : ℕ)
    → IsCoherent db now r
    → IsCoherent db now (get db user now r).1
unfolding get
get-IsCoherent {db} {now} {r} user c =
    let (o, fs, read, _) = get_entitlements-cases user r in
    rw (read, get) (serve-IsCoherent user o (same_keys fs c))

store-result :
    (user : ℕ) (now : DateTime) (x : Result Entitlements) (r : Redis) → (store user now x r).0 ≡ x
unfolding store
store-result user now (ok e) r = refl
store-result user now (err x) r = refl

serve-eq-resolve :
    (db : Db) (now : DateTime) (r : Redis) (user : ℕ) (o : Option Entitlements)
    → ((e : Entitlements) → o ≡ some e → WasTrue db now user e)
    → (serve db user now o r).0 ≡ resolve db user now
unfolding serve
serve-eq-resolve db now r user none h = store-result user now (resolve db user now) r
serve-eq-resolve db now r user (some e) h = elim (Bool-cases (unexpired now e.valid_until)) [
  | inl fresh ↦
      let (t, before, was) = h e refl in
      rw fresh (sym (resolve-IsFresh db user t now e before was fresh))
  | inr stale ↦ rw stale (store-result user now (resolve db user now) r)
]

-- The answer is the one that the tables give at this moment, whether or not it came from the
-- cache and whatever other command fails, provided that the cache is coherent and the version was
-- read as it is (a failed read counts as version 0).
pub get-eq-resolve :
    {db : Db} {now : DateTime} {r : Redis} (user : ℕ)
    → IsCoherent db now r
    → (catalog_version r).0 ≡ current r
    → (get db user now r).0 ≡ resolve db user now
unfolding get
get-eq-resolve {db} {now} {r} user c read =
    let (o, fs, reply, found) = get_entitlements-cases user r in
    rw (reply, get) (serve-eq-resolve db now (record r { faults = fs }) user o (true_then o found))
  where
    true_then :
        (o : Option Entitlements)
        → (o ≡ none) ⊎ (o ≡ fetch (catalog_version r).0 user r)
        → (e : Entitlements) → o ≡ some e
        → WasTrue db now user e
    true_then o (inl nothing) e h = cc
    true_then o (inr row) e h = c.past user e (rw (← read) (sym row ∙ h))

pub version-up :
    (r : Redis) → r.faults ≡ [] → catalog_version r ≡ (current r, record r { faults = [] })
unfolding catalog_version
version-up r up = rw (command-up (λ s. (s.catalog_version, s)) r up)

-- A change of one user's rows, after which every other user resolves as before, followed by
-- `invalidate` while Redis is up, leaves a coherent cache coherent with the new tables.
pub invalidate-IsCoherent :
    {db db' : Db} {now : DateTime} {r : Redis} (user : ℕ)
    → ((other : ℕ) (t : DateTime) → user ≢ other → resolve db' other t ≡ resolve db other t)
    → r.faults ≡ []
    → IsCoherent db now r
    → IsCoherent db' now (invalidate user r)
unfolding invalidate
invalidate-IsCoherent {db} {db'} {now} {r} user frame up c =
    rw
      (
        version-up r up,
        invalidate,
        command-up (λ s. (tt, dropped (current r) user s)) (record r { faults = [] }) refl,
      )
      (same_keys [] kept)
  where
    old :
        (u : ℕ) (x : Entitlements)
        → fetch (current r) u (dropped (current r) user r) ≡ some x
        → (user ≢ u) × (fetch (current r) u r ≡ some x)
    old u x h = ground (arith, fetch-dropped (current r) user (current r) u r)

    kept : IsCoherent db' now (dropped (current r) user r)
    kept = record {
      past = λ u x h.
          let (other, before) = old u x h in
          let (t, le, was) = c.past u x before in (t, le, frame u t other ∙ was);
      no_future = λ v u h. ground (arith, fetch-dropped (current r) user v u r, c.no_future v u h);
    }

-- Any change of the tables, followed by a bump of the version while Redis is up, leaves a coherent
-- cache coherent with the new tables.
pub bump-IsCoherent :
    {db db' : Db} {now : DateTime} {r : Redis}
    → r.faults ≡ []
    → IsCoherent db now r
    → IsCoherent db' now (bump_catalog_version r)
unfolding bump_catalog_version
bump-IsCoherent {db} {db'} {now} {r} up c =
    rw
      (
        command-up (λ s. (tt, record s { catalog_version = some (get_or 0 s.catalog_version + 1) }))
            r up,
        bump_catalog_version,
      )
      (record {
        past = λ u x h. ground (arith, c.no_future (current r + 1) u);
        no_future = λ v u h. c.no_future v u (omega arith);
      })
