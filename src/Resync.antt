-- ===== src/Resync.antt =====
-- internal/utils/resync/resync.go: an action that is performed once until it is reset.
pub mod Laws
use didem.Base.{ℕ, ◌==◌, nat_eq, if◌then◌else◌, Result, ok, Exec}

pub record Once : Type 0 where
  pub done : ℕ

abbrev pub fresh : Once
fresh = record { done = 0 }

-- `Reset`
unfoldable pub reset : Once → Once
reset o = record o { done = 0 }

-- `Do`, for a flag that is a part of the state. The flag is set when the action has ended, by an
-- error or a panic too.
module _ {S : Type 0} (get : S → Once) (put : Once → S → S) where
  unfoldable pub do_once : Exec S Unit → Exec S Unit
  do_once f s =
      let (r, s') = f s in
      if (get s).done == 1 then (ok tt, s) else (r, put (record (get s') { done = 1 }) s')
