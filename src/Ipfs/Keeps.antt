-- ===== src/Ipfs/Keeps.antt =====
-- Actions on the store over IPFS that keep a property of it, whatever their results are.
use didem.Base.{
  Bool, true, false, Result, ok, err, panic, Exec, ◌>>=◌, continue, pure, lift, if◌then◌else◌,
}
use didem.Storage.TxSet.{wrapped_exec}
use didem.Ipfs.{IpfsStorage}

module _ {I D B : Type 0} (P : IpfsStorage I D B → Type 0) where
  pub record Keeps {A : Type 0} (f : Exec (IpfsStorage I D B) A) : Type 0 where
    pub at : (s : IpfsStorage I D B) → P s → P (f s).1

  pub continue-keeps :
      {A C : Type 0} (r : Result A) (f : A → Exec (IpfsStorage I D B) C) (s : IpfsStorage I D B)
      → ((a : A) → Keeps (f a))
      → P s
      → P (continue r f s).1
  continue-keeps (ok a) f s k h = (k a).at s h
  continue-keeps (err e) f s k h = h
  continue-keeps panic f s k h = h

  pub Keeps-bind :
      {A C : Type 0} (m : Exec (IpfsStorage I D B) A) (f : A → Exec (IpfsStorage I D B) C)
      → Keeps m
      → ((a : A) → Keeps (f a))
      → Keeps (m >>= f)
  Keeps-bind m f km kf = record { at = λ s h. continue-keeps (m s).0 f (m s).1 kf (km.at s h) }

  pub Keeps-wrapped :
      {A : Type 0} (m : Exec (IpfsStorage I D B) A) → Keeps m → Keeps (wrapped_exec m)
  Keeps-wrapped m km = record { at = km.at }

  pub Keeps-lift : {A : Type 0} (r : Result A) → Keeps (lift r)
  Keeps-lift r = record { at = λ s h. h }

  pub Keeps-pure : {A : Type 0} (a : A) → Keeps (pure a)
  Keeps-pure a = record { at = λ s h. h }

  pub Keeps-if :
      {A : Type 0} (b : Bool) (f g : Exec (IpfsStorage I D B) A)
      → Keeps f
      → Keeps g
      → Keeps (if b then f else g)
  Keeps-if true f g kf kg = kf
  Keeps-if false f g kf kg = kg
