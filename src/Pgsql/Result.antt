-- ===== src/Pgsql/Result.antt =====
-- pgsql: the errors of the package, and results that may be one of them.
use g_micor.Base.{◌≡◌, refl, Option, none, some}

-- `no_pool` is an error of `PoolManager.Get`, `query_failed` one of the driver, `value_failed` one of `getValue`.
-- `panicked` is no error but the end of the goroutine.
pub data DbError : Type 0 where
  negative_unsigned bad_json wrong_target : DbError
  id_not_int64 no_id : DbError
  no_pool query_failed value_failed : DbError
  zero_id no_rows_affected nothing_to_set where_required : DbError
  panicked : DbError

pub data Result {ℓ} (A : Type ℓ) : Type ℓ where
  ok : A → Result A
  err : DbError → Result A

infixl 5 ◌>>=◌
unfoldable pub ◌>>=◌ {ℓ κ} : {A : Type ℓ} {B : Type κ} → Result A → (A → Result B) → Result B
ok a >>= f = f a
err e >>= f = err e

abbrev pub or_error {ℓ} : {A : Type ℓ} → DbError → Option A → Result A
or_error e none = err e
or_error e (some a) = ok a

-- What a chain that ends well went through.
pub bind_ok {ℓ κ} :
    {A : Type ℓ} {B : Type κ} (r : Result A) (f : A → Result B) (b : B)
    → (r >>= f) ≡ ok b
    → (a : A) × (r ≡ ok a) × (f a ≡ ok b)
unfolding ◌>>=◌
bind_ok (ok a) f b h = (a, refl, h)
bind_ok (err e) f b h = absurd cc

pub ok_inj {ℓ} : {A : Type ℓ} {a b : A} → ok a ≡ ok b → a ≡ b
ok_inj h = cc
