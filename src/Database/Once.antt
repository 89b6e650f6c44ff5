-- ===== src/Database/Once.antt =====
-- What the package gives after the first try to open the database.
use simple_blockchain_client.Text.{Bytes}
use simple_blockchain_client.Database.{set_db_path, Handle, Option, Bytes, open_db, get_db_instance}
use simple_blockchain_client.Prelude.{
  inr, ap, ◌∙◌, inl, Bool-cases, Option-cases, refl, arith, ◌≡◌, Option, none, true,
}

module _ {D : Type 0} where
  get_db_instance-done :
      (again : Bytes → Option D) (h : Handle D)
      → h.once ≡ true
      → get_db_instance again h ≡ ((h.db_instance, none), h)
  unfolding get_db_instance
  get_db_instance-done again h done = rw done refl

  open_db-once :
      (open_file : Bytes → Option D) (h : Handle D)
      → ((open_db open_file h).1.once ≡ true)
        × ((open_db open_file h).1.db_instance ≡ (open_db open_file h).0.0)
  unfolding open_db
  open_db-once open_file h = ground (arith, Option-cases (open_file h.db_path))

  get_db_instance-once :
      (open_file : Bytes → Option D) (h : Handle D)
      → let first = get_db_instance open_file h in
        (first.1.once ≡ true) × (first.1.db_instance ≡ first.0.0)
  unfolding get_db_instance open_db
  get_db_instance-once open_file h = elim (Bool-cases h.once) [
    | inl done ↦ rw done (refl, refl)
    | inr new ↦ rw new (open_db-once open_file h)
  ]

  -- Every call of `GetDBInstance` after the first one gives what the first one gave, whatever path was set
  -- between them and whatever opening it would give, and without an error: if the first one failed, a nil
  -- handle without an error.
  pub get_db_instance_again :
      (open_file again : Bytes → Option D) (path : Bytes) (h : Handle D)
      → let (first, opened) = get_db_instance open_file h in
        get_db_instance again (set_db_path path opened) ≡ ((first.0, none), set_db_path path opened)
  unfolding set_db_path
  get_db_instance_again open_file again path h =
      let opened = (get_db_instance open_file h).1 in
      let (done, same) = get_db_instance-once open_file h in
      get_db_instance-done again (set_db_path path opened) done
      ∙ ap (λ o. ((o, none), set_db_path path opened)) same
