-- ===== src/Tests/Migrations.antt =====
-- The migrations beside the table in which alembic keeps its own revision.
use aucnotif.Prelude.{◌≡◌, refl, true, some, [], ◌∷◌, ◌++◌}
use aucnotif.Prelude.Text.{codes}
use aucnotif.Migrations.Schema.{Schema, varchar, then_run, run}
use aucnotif.Migrations.Initial.{required}
use aucnotif.Migrations.Versions.{upgrade, downgrade}
use aucnotif.Migrations.Declared.{declared}
use aucnotif.Migrations.RoundTrip.{IsForeign, upgrade-downgrade}
use aucnotif.Migrations.Agrees.{agrees, upgrade-agrees}

abbrev alembic : Schema
alembic =
    record {
      name = codes "alembic_version";
      columns = required (codes "version_num") (varchar 32) ∷ [];
      constraints = [];
      indexes = [];
    }
    ∷ []

alembic-IsForeign : IsForeign alembic
alembic-IsForeign = record {
  no_table = (refl, (refl, (refl, (refl, (refl, tt)))));
  no_index = (refl, (refl, (refl, (refl, (refl, (refl, (refl, (refl, tt))))))));
  no_key = (refl, (refl, (refl, (refl, (refl, tt)))));
}

upgrade-downgrade_example : then_run (run upgrade alembic) (run downgrade) ≡ some alembic
upgrade-downgrade_example = upgrade-downgrade alembic alembic-IsForeign

upgrade-agrees_example :
    (t : Schema) × ((run upgrade alembic ≡ some (t ++ alembic)) × (agrees t declared ≡ true))
upgrade-agrees_example = upgrade-agrees alembic alembic-IsForeign
