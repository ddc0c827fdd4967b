-- ===== src/Pgsql/Strict.antt =====
-- pgsql: a driver that takes a statement only if its placeholders are $1, $2, … and one for each
-- argument, in this order.
use g_micor.Base.{ℕ, ◌≡◌, refl, ap, Bool, true, none, List, [], ◌∷◌, length, arith, if◌then◌else◌}
use g_micor.Base.Bytes.{Bytes}
use g_micor.Pgsql.Sql.{placeholders, range}
use g_micor.Pgsql.Types.{DbValue}
use g_micor.Pgsql.Result.{Result, ok, err}
use g_micor.Pgsql.Driver.{Driver, World, Db, ◌>>=◌, calling}
use g_micor.Pgsql.Table.{same}

-- A statement whose placeholders are numbered as its arguments are.
abbrev pub IsNumbered {ℓ} : {D : Type ℓ} → Bytes → List D → Type 0
IsNumbered sql args = placeholders sql ≡ range 1 (length args)

unfoldable pub numbered {ℓ} : {D : Type ℓ} → Bytes → List D → Bool
unfolding placeholders same
numbered sql args = same (placeholders sql) (range 1 (length args))

same_self : (s : List ℕ) → same s s ≡ true
unfolding same
same_self [] = refl
same_self (c ∷ s) = ground (arith, same_self s)

numbered-IsNumbered {ℓ} :
    {D : Type ℓ} (sql : Bytes) (args : List D) → IsNumbered sql args → numbered sql args ≡ true
unfolding numbered
numbered-IsNumbered sql args h = rw h (same_self (range 1 (length args)))

-- The driver with that test in front of every call.
unfoldable pub strict : {J F O S R : Type 0} → Driver J F O S R → Driver J F O S R
unfolding numbered
strict dr = record dr {
  query_row = λ sql args s. if numbered sql args then dr.query_row sql args s else (none, s);
  query = λ sql args s. if numbered sql args then dr.query sql args s else (none, s);
  exec = λ sql args s. if numbered sql args then dr.exec sql args s else (none, s);
}

bind_ext_at :
    {J F O S A B : Type 0} (r : Result A × World J F O S) (f g : A → Db J F O S B)
    (w : World J F O S)
    → ((a : A) (w' : World J F O S) → r ≡ (ok a, w') → f a w' ≡ g a w')
    → ((λ _. r) >>= f) w ≡ ((λ _. r) >>= g) w
unfolding ◌>>=◌
bind_ext_at (ok a, w') f g w h = h a w' refl
bind_ext_at (err e, w') f g w h = refl

-- Two operations that begin alike agree, if they agree after it.
pub bind_ext :
    {J F O S A B : Type 0} (m : Db J F O S A) (f g : A → Db J F O S B) (w : World J F O S)
    → ((a : A) (w' : World J F O S) → m w ≡ (ok a, w') → f a w' ≡ g a w')
    → (m >>= f) w ≡ (m >>= g) w
unfolding ◌>>=◌
bind_ext m f g w h = bind_ext_at (m w) f g w h

pub bind_cong :
    {J F O S A B : Type 0} (m m' : Db J F O S A) (f : A → Db J F O S B) (w : World J F O S)
    → m w ≡ m' w
    → (m >>= f) w ≡ (m' >>= f) w
unfolding ◌>>=◌
bind_cong m m' f w h = ap (λ r. ((λ _. r) >>= f) w) h

module _ {J F O S R : Type 0} (dr : Driver J F O S R) (sql : Bytes) (args : List (DbValue J F O))
    {A : Type 0} where
  -- In front of each call the test goes well, if the statement is numbered.
  pub query_row-strict :
      (f : R → Db J F O S A) (w : World J F O S)
      → IsNumbered sql args
      → (calling ((strict dr).query_row sql args) >>= f) w
        ≡ (calling (dr.query_row sql args) >>= f) w
  unfolding strict
  query_row-strict f w h =
      ap (λ b. (calling (λ s. if b then dr.query_row sql args s else (none, s)) >>= f) w)
        (numbered-IsNumbered sql args h)

  pub query-strict :
      (f : (List R × Bool) → Db J F O S A) (w : World J F O S)
      → IsNumbered sql args
      → (calling ((strict dr).query sql args) >>= f) w ≡ (calling (dr.query sql args) >>= f) w
  unfolding strict
  query-strict f w h =
      ap (λ b. (calling (λ s. if b then dr.query sql args s else (none, s)) >>= f) w)
        (numbered-IsNumbered sql args h)

  pub exec-strict :
      (f : ℕ → Db J F O S A) (w : World J F O S)
      → IsNumbered sql args
      → (calling ((strict dr).exec sql args) >>= f) w ≡ (calling (dr.exec sql args) >>= f) w
  unfolding strict
  exec-strict f w h =
      ap (λ b. (calling (λ s. if b then dr.exec sql args s else (none, s)) >>= f) w)
        (numbered-IsNumbered sql args h)

pub exec_last-strict :
    {J F O S R : Type 0} (dr : Driver J F O S R) (sql : Bytes) (args : List (DbValue J F O))
    (w : World J F O S)
    → IsNumbered sql args
    → calling ((strict dr).exec sql args) w ≡ calling (dr.exec sql args) w
unfolding strict
exec_last-strict dr sql args w h =
    ap (λ b. calling (λ s. if b then dr.exec sql args s else (none, s)) w)
      (numbered-IsNumbered sql args h)
