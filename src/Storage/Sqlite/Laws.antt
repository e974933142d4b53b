-- ===== src/Storage/Sqlite/Laws.antt =====
-- What SQLite's statements and JSON texts are relied on for, where they succeed.
use openim_sdk_core_rust.Base.{String, false, inl, inr, ◌≡◌, ap}
use openim_sdk_core_rust.Base.Text.{is_empty}
use openim_sdk_core_rust.Errors.{Result, ok, ok_injective}
use openim_sdk_core_rust.Transport.Wire.{Fallible}
use openim_sdk_core_rust.Storage.Sqlite.{Json, or_json_error, or_sqlite_error}

-- a value is read back from the text that was made of it, and no JSON text is empty
pub record IsJson {A : Type 0} (json : Json A) : Type 0 where
  pub read : (a : A) (s : String) → json.to_string a ≡ inr s → json.from_str s ≡ inr a
  pub not_empty : (a : A) (s : String) → json.to_string a ≡ inr s → is_empty s ≡ false

pub or_json_error-ok : {A : Type 0} (r : Fallible A) {a : A} → or_json_error r ≡ ok a → r ≡ inr a
or_json_error-ok (inl e) h = cc
or_json_error-ok (inr a) h = ap inr (ok_injective h)

pub or_sqlite_error-ok :
    {A : Type 0} (r : Fallible A) {a : A} → or_sqlite_error r ≡ ok a → r ≡ inr a
or_sqlite_error-ok (inl e) h = cc
or_sqlite_error-ok (inr a) h = ap inr (ok_injective h)

pub executed :
    {D : Type 0} (r : Fallible (Unit {0})) {t e : D}
    → Path (Result (Unit {0}) × D) (or_sqlite_error r, t) (ok tt, e)
    → Path (Fallible (Unit {0}) × D) (r, t) (inr tt, e)
executed (inl x) h = cc
executed (inr u) h = ap (λ p. (inr tt, p.1)) h
