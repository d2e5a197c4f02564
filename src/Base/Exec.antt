-- ===== src/Base/Exec.antt =====
-- Actions on a state, which may fail. What was done before an error stays done.
use opendal_indexeddb.Base.Results.{Result, ok, err, Error}

abbrev pub Exec : Type 0 → Type 0 → Type 0
Exec W A = W → Result A × W

abbrev pub continue : {W A B : Type 0} → Result A × W → (A → Exec W B) → Result B × W
continue (ok a, w) f = f a w
continue (err e, w) f = (err e, w)

infixl 5 ◌>>=◌ ◌>>◌
abbrev pub ◌>>=◌ : {W A B : Type 0} → Exec W A → (A → Exec W B) → Exec W B
◌>>=◌ m f w = continue (m w) f

abbrev pub ◌>>◌ : {W B : Type 0} → Exec W (Unit {0}) → Exec W B → Exec W B
m >> k = m >>= λ _. k

abbrev pub pure : {W A : Type 0} → A → Exec W A
pure a w = (ok a, w)

abbrev pub raise : {W A : Type 0} → Error → Exec W A
raise e w = (err e, w)

abbrev pub lift : {W A : Type 0} → Result A → Exec W A
lift r w = (r, w)
