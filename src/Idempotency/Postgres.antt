-- ===== src/Idempotency/Postgres.antt =====
-- packages/engine/src/idempotency-pg.ts: the upsert of `put` on the row of a key, with its version
-- guard and its `coalesce` columns, and what no writer can undo.
use corridor_in_a_box.Base.{
  ◌≤◌, ◌≡◌, false, Option, none, some, List, [], ◌∷◌, arith, if◌then◌else◌, orelse, ltb, is_some,
  not, ◌&&◌,
}
use corridor_in_a_box.Idempotency.{StoredRun}

-- `on conflict (idempotency_key) do update set … where corridor_runs.version < excluded.version`:
-- `row` is stored and `run` is written. The key, the corridor and the owner are not updated.
unfoldable pub upsert : StoredRun → StoredRun → StoredRun
upsert row run =
    if ltb row.version run.version
    then record run {
      idempotency_key = row.idempotency_key;
      corridor_id = row.corridor_id;
      owner = row.owner;
      manifest_hash = orelse row.manifest_hash run.manifest_hash;
      source_transaction_id = orelse row.source_transaction_id run.source_transaction_id;
      settlement_kind = orelse run.settlement_kind row.settlement_kind;
      settlement_ref = orelse run.settlement_ref row.settlement_ref;
      refund_id = orelse row.refund_id run.refund_id;
      settlement = orelse row.settlement run.settlement;
    }
    else row

-- `put`: an insert where the key has no row.
unfoldable pub put_row : Option StoredRun → StoredRun → StoredRun
unfolding upsert
put_row none run = run
put_row (some row) run = upsert row run

-- Writes by any number of workers, in the order in which they reach the database.
abbrev pub writes : StoredRun → List StoredRun → StoredRun
writes row [] = row
writes row (run ∷ runs) = writes (put_row (some row) run) runs

-- What a row holds that no later row of the same key may lose: `orelse a b ≡ b` says that `b` is `a`
-- if `a` is there at all.
pub record Keeps (row later : StoredRun) : Type 0 where
  pub version : row.version ≤ later.version
  pub owner : later.owner ≡ row.owner
  pub refund : orelse row.refund_id later.refund_id ≡ later.refund_id
  pub source :
      orelse row.source_transaction_id later.source_transaction_id ≡ later.source_transaction_id
  pub request : orelse row.settlement later.settlement ≡ later.settlement
  pub paid : (is_some row.settlement_ref && not (is_some later.settlement_ref)) ≡ false
  pub pinned : orelse row.manifest_hash later.manifest_hash ≡ later.manifest_hash

put_row-Keeps : (row run : StoredRun) → Keeps row (put_row (some row) run)
unfolding put_row
put_row-Keeps row run = ground arith

Keeps-trans : (a b c : StoredRun) → Keeps a b → Keeps b c → Keeps a c
Keeps-trans a b c h k = ground arith

-- Whatever the writers send and in whatever order, the version of a row never goes back, its owner
-- never changes, and a refund id, a source deposit, a recorded settlement request and a manifest hash
-- are never replaced or lost, nor a settlement reference lost.
pub writes-Keeps : (row : StoredRun) (runs : List StoredRun) → Keeps row (writes row runs)
writes-Keeps row [] = ground arith
writes-Keeps row (run ∷ runs) =
    Keeps-trans row (put_row (some row) run) (writes (put_row (some row) run) runs)
      (put_row-Keeps row run) (writes-Keeps (put_row (some row) run) runs)

-- A writer whose version is not higher than the stored one changes nothing.
pub stale_write : (row run : StoredRun) → run.version ≤ row.version → put_row (some row) run ≡ row
unfolding put_row
stale_write row run h = ground arith
