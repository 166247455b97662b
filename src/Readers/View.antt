-- ===== src/Readers/View.antt =====
-- What the two readers have still to deliver, and the rules for a method of one of them.
use hndl_dev.Prelude.{ap}
use hndl_dev.Exec.{Exec, Yields}
use hndl_dev.Binary.{Bytes, Reader}
use hndl_dev.Binary.View.{Unread}
use hndl_dev.Readers.{Readers, beside, on_layout, on_opaque}

-- What both readers have still to deliver.
pub record Both (s : Readers) (xs ys : Bytes) : Type 0 where
  pub layout : Unread s.layout xs
  pub opaque : Unread s.opaque ys

module _ {A : Type 0} {m : Exec Reader A} {s : Readers} {a : A} (xs ys zs : Bytes) where
  pub on_layout-Yields :
      Both s xs ys
      → Yields m s.layout a (λ t. Unread t zs)
      → Yields (on_layout m) s a (λ t. Both t zs ys)
  on_layout-Yields b y = record {
    after = record s { layout = y.after };
    runs = ap (λ r. beside r (λ t. record s { layout = t })) y.runs;
    holds = record { layout = y.holds; opaque = b.opaque };
  }

  pub on_opaque-Yields :
      Both s xs ys
      → Yields m s.opaque a (λ t. Unread t zs)
      → Yields (on_opaque m) s a (λ t. Both t xs zs)
  on_opaque-Yields b y = record {
    after = record s { opaque = y.after };
    runs = ap (λ r. beside r (λ t. record s { opaque = t })) y.runs;
    holds = record { layout = b.layout; opaque = y.holds };
  }
