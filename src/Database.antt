-- ===== src/Database.antt =====
-- leveldb/leveldb.go: the handle of the database, which is opened once. `D` is what an open database
-- is to the program; what the file system and goleveldb answer is an argument.
pub mod Once
use simple_blockchain_client.Text.{codes, Bytes}
use simple_blockchain_client.Prelude.{
  if◌then◌else◌, Option, Bool, ◌∷◌, [], zero, suc, ℕ, none, some, true, false,
}

pub data DbError : Type 0 where
  no_directory not_opened not_closed : DbError

-- The variables of the package: `dbInstance`, which may be nil, `once` and `dbPath`.
pub record Handle (D : Type 0) : Type 0 where
  pub db_instance : Option D
  pub once : Bool
  pub db_path : Bytes

-- `ensureDBDirectory`, on whether the directory is missing and whether making it succeeds.
unfoldable pub ensure_db_directory : Bool → Bool → Option DbError
ensure_db_directory missing makes =
    if missing then (if makes then none else some no_directory) else none

module _ {D : Type 0} where
  unfoldable pub new_handle : Handle D
  new_handle = record { db_instance = none; once = false; db_path = codes "leveldb/database" }

  -- `SetDBPath`
  unfoldable pub set_db_path : Bytes → Handle D → Handle D
  set_db_path path h = record h { db_path = path }

  -- The first call of `GetDBInstance`, on what `OpenFile` answers for a path.
  unfoldable pub open_db : (Bytes → Option D) → Handle D → (Option D × Option DbError) × Handle D
  open_db open_file h = elim (open_file h.db_path) [
    | none ↦ ((none, some not_opened), record h { db_instance = none; once = true })
    | some d ↦ ((some d, none), record h { db_instance = some d; once = true })
  ]

  -- `GetDBInstance`: the handle and the error that it returns. The error is a variable of the call, so
  -- that every later call returns none.
  unfoldable pub get_db_instance :
      (Bytes → Option D) → Handle D → (Option D × Option DbError) × Handle D
  get_db_instance open_file h = if h.once then ((h.db_instance, none), h) else open_db open_file h

  -- `IsDBOpened`
  unfoldable pub is_db_opened : Handle D → Bool
  is_db_opened h = elim h.db_instance [ none ↦ false | some d ↦ true ]

  -- `CloseDB`, on whether closing a database succeeds; the handle stays.
  unfoldable pub close_db : (D → Bool) → Handle D → Option DbError
  close_db closes h = elim h.db_instance [
    | none ↦ none
    | some d ↦ if closes d then none else some not_closed
  ]

  -- `CleanupDB`
  unfoldable pub cleanup_db : (D → Bool) → Handle D → Option DbError
  cleanup_db closes h = if is_db_opened h then close_db closes h else none

  -- `InitDB`, on the same answers and that of `OpenFile`.
  unfoldable pub init_db : Bool → Bool → (Bytes → Option D) → Handle D → Option DbError × Handle D
  init_db missing makes open_file h = elim (ensure_db_directory missing makes) [
    | some e ↦ (some e, h)
    | none ↦ let (opened, h') = get_db_instance open_file h in (opened.1, h')
  ]
