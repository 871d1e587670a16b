-- ===== src/Resync/Laws.antt =====
-- Lemmas on `Once` of internal/utils/resync/resync.go.
use didem.Base.{◌==◌, nat_eq, ok, Exec, ◌≡◌, refl, Bool-cases, inl, inr}
use didem.Resync.{Once, reset, do_once}

module _ {S : Type 0} (get : S → Once) (put : Once → S → S)
    (get-put : (o : Once) (s : S) → get (put o s) ≡ o) where
  done_skips :
      (f g : Exec S Unit) (s : S)
      → do_once get put g (do_once get put f s).1 ≡ (ok tt, (do_once get put f s).1)
  unfolding do_once
  done_skips f g s = elim (Bool-cases ((get s).done == 1)) [
    | inl done ↦ rw done (rw done refl)
    | inr more ↦ rw more (rw get-put refl)
  ]

  again :
      (g : Exec S Unit) (s : S)
      → (do_once get put g (put (reset (get s)) s)).0 ≡ (g (put (reset (get s)) s)).0
  unfolding do_once reset
  again g s = rw get-put refl

  -- Behind one `Do`, whatever its action gave, another one does nothing; behind a `Reset` as well,
  -- it performs its action again, with that action's result.
  pub do_once_again :
      (f g : Exec S Unit) (s : S)
      → (do_once get put g (do_once get put f s).1 ≡ (ok tt, (do_once get put f s).1))
        × ((do_once get put g (put (reset (get s)) s)).0 ≡ (g (put (reset (get s)) s)).0)
  do_once_again f g s = (done_skips f g s, again g s)
