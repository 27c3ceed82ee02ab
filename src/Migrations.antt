-- ===== src/Migrations.antt =====
-- alembic/versions: the schema that the migrations build, against the tables that app/models declares.
pub mod Schema
pub mod Initial
pub mod Versions
pub mod Declared
pub mod RoundTrip
pub mod Agrees
