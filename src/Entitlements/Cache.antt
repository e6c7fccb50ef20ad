-- ===== src/Entitlements/Cache.antt =====
-- EntitlementCache (entitlements/cache.py). Every failing command is a miss or does nothing. The
-- JSON form of a snapshot is not modelled: the row holds the snapshot.
use chatfolio_backend.Prelude.{
  ℕ, ◌+◌, Bool, ◌&&◌, Option, none, some, ◌∷◌, ◌==◌, get_or, first_row, where_rows, not,
}
use chatfolio_backend.Models.Redis.{Redis, SnapshotRow, command}
use chatfolio_backend.Entitlements.{Entitlements}

-- 0 where the key is missing, and where the command fails.
unfoldable pub catalog_version : Redis → ℕ × Redis
catalog_version r =
    let (reply, r') = command (λ s. (s.catalog_version, s)) r in (get_or 0 (get_or none reply), r')

unfoldable pub bump_catalog_version : Redis → Redis
bump_catalog_version r =
    (command (λ s. (tt, record s { catalog_version = some (get_or 0 s.catalog_version + 1) })) r).1

abbrev pub has_key : ℕ → ℕ → SnapshotRow → Bool
has_key version user row = (row.version == version) && (row.user == user)

abbrev pub fetch : ℕ → ℕ → Redis → Option Entitlements
fetch version user r = elim (first_row (has_key version user) r.snapshots) [
  | none ↦ none
  | some row ↦ some row.entitlements
]

abbrev pub dropped : ℕ → ℕ → Redis → Redis
dropped version user r = record r {
  snapshots = where_rows (λ row. not (has_key version user row)) r.snapshots;
}

abbrev pub stored : ℕ → ℕ → Entitlements → ℕ → Redis → Redis
stored version user e ttl r = record r {
  snapshots =
      record { version = version; user = user; entitlements = e; ttl = ttl }
      ∷ (dropped version user r).snapshots;
}

unfoldable pub get_entitlements : ℕ → Redis → Option Entitlements × Redis
get_entitlements user r =
    let (version, r') = catalog_version r in
    let (reply, r'') = command (λ s. (fetch version user s, s)) r' in (get_or none reply, r'')

unfoldable pub set_entitlements : ℕ → Entitlements → ℕ → Redis → Redis
set_entitlements user e ttl r =
    let (version, r') = catalog_version r in (command (λ s. (tt, stored version user e ttl s)) r').1

unfoldable pub invalidate : ℕ → Redis → Redis
invalidate user r =
    let (version, r') = catalog_version r in (command (λ s. (tt, dropped version user s)) r').1
