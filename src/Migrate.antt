-- ===== src/Migrate.antt =====
-- pkg/migrate/migrate.go. database/sql and goose are parameters; a file system is named by a text,
-- and `none` is the base that goose begins with.
use go_payment.Prelude.{String, Option, none, some}
use go_payment.Exec.{Exec, attempt, or_wrapped, doing, ◌>>=◌, ◌>>◌}

pub record Goose (S : Type 0) : Type 0 where
  -- sql.Open("pgx", url) and its Close
  pub open_db : String → Exec S (Unit {0})
  pub close : S → S
  pub set_dialect : String → Exec S (Unit {0})
  pub set_base_fs : Option String → S → S
  -- goose.Up(db, dir)
  pub up : String → Exec S (Unit {0})

-- A body and the calls that its function has deferred.
abbrev pub deferring : {S A : Type 0} → (S → S) → Exec S A → Exec S A
deferring last m s = let (r, s') = m s in (r, last s')

module _ {S : Type 0} (g : Goose S) where
  unfoldable pub up : String → String → Exec S (Unit {0})
  up url dir = do
    o ← attempt (g.open_db url)
    or_wrapped "open db: " o
    deferring g.close
        (do g.set_dialect "postgres"; r ← attempt (g.up dir); or_wrapped "goose up: " r)

  unfoldable pub up_fs : String → String → String → Exec S (Unit {0})
  up_fs url fsys dir = do
    o ← attempt (g.open_db url)
    or_wrapped "open db: " o
    deferring g.close (do
      g.set_dialect "postgres"
      doing (g.set_base_fs (some fsys))
      deferring (g.set_base_fs none) (do r ← attempt (g.up dir); or_wrapped "goose up fs: " r))
