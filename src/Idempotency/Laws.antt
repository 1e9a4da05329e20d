-- ===== src/Idempotency/Laws.antt =====
-- What the in-memory store of packages/engine/src/idempotency.ts guarantees: a key is claimed once,
-- rows of other keys are left alone, a source deposit is never forgotten, and a resolution is
-- recorded once and only for a held run.
use corridor_in_a_box.Base.{
  ◌≡◌, ◌↔◌, refl, String, true, false, Option, none, some, List, [], ◌∷◌, str_eq, eq_iff, arith,
  if◌then◌else◌, orelse, ◌≢◌,
}
use corridor_in_a_box.State.{held}
use corridor_in_a_box.Idempotency.{
  StoredRun, Store, Resolution, lookup, replace, source_of, is_held, get, put, create,
  get_resolution, record_resolution,
}

lookup-replace :
    (key : String) (run : StoredRun) (rows : List StoredRun)
    → lookup key (replace run rows)
      ≡ (if str_eq run.idempotency_key key then some run else lookup key rows)
unfolding lookup replace
lookup-replace key run [] = refl
lookup-replace key run (x ∷ rows) = ground (
  arith,
  eq_iff run.idempotency_key key,
  eq_iff x.idempotency_key key,
  eq_iff x.idempotency_key run.idempotency_key,
  lookup-replace key run rows,
)

-- A write is read back with the source deposit reference that the row already had, if it had one,
-- and leaves the rows of other keys alone.
pub get-put :
    (key : String) (run : StoredRun) (store : Store)
    → get key (put run store) ≡ (
        if str_eq run.idempotency_key key
        then some (record run {
          source_transaction_id =
              orelse (source_of (get run.idempotency_key store)) run.source_transaction_id;
        })
        else get key store)
unfolding get put
get-put key run store =
    lookup-replace key
      (record run {
        source_transaction_id =
            orelse (source_of (lookup run.idempotency_key store.runs)) run.source_transaction_id;
      })
      store.runs

-- A key is claimed once: the first of two claims wins if the key is free, the second is refused
-- whatever it carries and changes nothing, and the row that is read is the first one's.
pub create-create :
    (run other : StoredRun) (store : Store)
    → get run.idempotency_key store ≡ none
    → other.idempotency_key ≡ run.idempotency_key
    → ((create run store).1 ≡ true)
      × (create other (create run store).0 ≡ ((create run store).0, false))
      × (get run.idempotency_key (create run store).0 ≡ some run)
unfolding create get
create-create run other store free same = ground (
  arith,
  lookup-replace run.idempotency_key run store.runs,
  eq_iff run.idempotency_key run.idempotency_key,
)

-- A claim fails exactly when the key has a row, and then leaves the store as it was.
pub create_refused :
    (run : StoredRun) (store : Store)
    → ((create run store).1 ≡ false) ↔ (get run.idempotency_key store ≢ none)
unfolding create get
create_refused run store = ground arith

run_of_is_held :
    (o : Option StoredRun)
    → is_held o ≡ true
    → (run : StoredRun) × (o ≡ some run) × (run.state ≡ held)
run_of_is_held none h = cc
run_of_is_held (some run) h = (run, refl, ground arith)

held_of_recorded :
    (res : Resolution) (store : Store)
    → (record_resolution res store).1 ≡ true
    → is_held (get res.idempotency_key store) ≡ true
unfolding record_resolution get
held_of_recorded res store done = ground arith

-- A resolution is recorded only for a run that is held, and is then the one that is read; a second
-- one for the same key is refused and changes nothing.
pub record_resolution-once :
    (res other : Resolution) (store : Store)
    → (record_resolution res store).1 ≡ true
    → other.idempotency_key ≡ res.idempotency_key
    → ((run : StoredRun) × (get res.idempotency_key store ≡ some run) × (run.state ≡ held))
      × (get_resolution res.idempotency_key (record_resolution res store).0.resolutions ≡ some res)
      × (record_resolution other (record_resolution res store).0
          ≡ ((record_resolution res store).0, false))
unfolding record_resolution get get_resolution
record_resolution-once res other store done same = (
  run_of_is_held (lookup res.idempotency_key store.runs) (held_of_recorded res store done),
  ground (arith, eq_iff res.idempotency_key res.idempotency_key),
  ground (arith, eq_iff res.idempotency_key res.idempotency_key),
)

lookup-key :
    (key : String) (run : StoredRun) (rows : List StoredRun)
    → lookup key rows ≡ some run
    → run.idempotency_key ≡ key
unfolding lookup
lookup-key key run [] h = cc
lookup-key key run (x ∷ rows) h =
    ground (arith, eq_iff x.idempotency_key key, lookup-key key run rows)

-- The row that is read under a key carries that key.
pub get-key :
    (key : String) (run : StoredRun) (store : Store)
    → get key store ≡ some run
    → run.idempotency_key ≡ key
unfolding get
get-key key run store h = lookup-key key run store.runs h
