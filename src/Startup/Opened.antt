-- ===== src/Startup/Opened.antt =====
-- The handle of the database that the rest of the program gets after `main` has opened it.
use simple_blockchain_client.Text.{codes, Bytes}
use simple_blockchain_client.Database.{
  set_db_path, ensure_db_directory, Handle, open_db, get_db_instance, init_db,
}
use simple_blockchain_client.Startup.{codes, Bytes, run_main, init_db, exit_before}
use simple_blockchain_client.Prelude.{
  bytes_eq, ◌==◌, refl, Bool-cases, inl, arith, ◌++◌, inr, ◌≢◌, Option-cases, ◌≡◌, Option, Bool,
  none, some, true, false,
}

module _ {D : Type 0} where
  init_db-opens :
      (missing makes : Bool) (open_file : Bytes → Option D) (h : Handle D)
      → h.once ≡ false
      → (init_db missing makes open_file h).0 ≡ none
      → (d : D) × (open_file h.db_path ≡ some d)
        × (init_db missing makes open_file h
            ≡ (none, record h { db_instance = some d; once = true }))
  unfolding init_db get_db_instance open_db
  init_db-opens missing makes open_file h new fine =
      elim (Option-cases (ensure_db_directory missing makes)) [
        | inr (e, failed) ↦ absurd (ground arith)
        | inl made ↦ elim (Option-cases (open_file h.db_path)) [
          | inl failed ↦ absurd (ground arith)
          | inr (d, opened) ↦ (d, opened, ground arith)
        ]
      ]

  abbrev node_path : Bytes → Handle D → Handle D
  node_path node_id h = set_db_path (codes "./db/" ++ node_id) h

  run_main-handle :
      (missing makes : Bool) (open_file : Bytes → Option D) (mode node_id : Bytes) (h : Handle D)
      → ((run_main missing makes open_file mode node_id h).1
          ≡ (init_db missing makes open_file (node_path node_id h)).1)
        × ((run_main missing makes open_file mode node_id h).0 ≢ exit_before
            → (init_db missing makes open_file (node_path node_id h)).0 ≡ none)
  unfolding run_main
  run_main-handle missing makes open_file mode node_id h =
      elim (Option-cases (init_db missing makes open_file (node_path node_id h)).0) [
        | inr (e, failed) ↦
            (rw (failed, run_main) refl, λ runs. absurd (runs (rw (failed, run_main) refl)))
        | inl fine ↦ (
          rw (fine, run_main)
              (ground (
                arith,
                Bool-cases (mode == codes "bootnode"),
                Bool-cases (mode == codes "fullnode"),
              )),
          λ runs. fine,
        )
      ]

  -- Unless `main` exits, the database at the path of the node's id was opened, and every later
  -- `GetDBInstance` gives that database and no error, whatever opening another one would give.
  pub run_main_opens :
      (missing makes : Bool) (open_file again : Bytes → Option D) (mode node_id : Bytes)
      (h : Handle D)
      → h.once ≡ false
      → (run_main missing makes open_file mode node_id h).0 ≢ exit_before
      → let opened = (run_main missing makes open_file mode node_id h).1 in
        (d : D) × (open_file (codes "./db/" ++ node_id) ≡ some d)
        × (get_db_instance again opened ≡ ((some d, none), opened))
  unfolding set_db_path get_db_instance
  run_main_opens missing makes open_file again mode node_id h new runs =
      let (handle, went) = run_main-handle missing makes open_file mode node_id h in
      let (d, opened, all) =
        init_db-opens missing makes open_file (node_path node_id h) new (went runs) in
      (d, opened, rw (handle, all) refl)
