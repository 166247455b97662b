-- ===== src/Readers.antt =====
-- The two `Reader`s of an expansion (minarx/protocols/common.py): one walks the layout, the other
-- the opaque bytes.
pub mod View
use hndl_dev.Result.{Result, ok, err}
use hndl_dev.Exec.{Exec}
use hndl_dev.Binary.{Reader}

-- The reader of a layout that an expander makes, and the one of the opaque bytes beside it.
pub record Readers : Type 0 where
  pub layout : Reader
  pub opaque : Reader

-- The result of a method of one reader, beside the other.
abbrev pub beside {ℓ} :
    {A : Type ℓ} → Result (A × Reader) → (Reader → Readers) → Result (A × Readers)
beside (ok (a, r)) put = ok (a, put r)
beside (err e) put = err e

abbrev pub on_layout : {A : Type 0} → Exec Reader A → Exec Readers A
on_layout m s = beside (m s.layout) (λ r. record s { layout = r })

abbrev pub on_opaque : {A : Type 0} → Exec Reader A → Exec Readers A
on_opaque m s = beside (m s.opaque) (λ r. record s { opaque = r })
