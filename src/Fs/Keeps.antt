-- ===== src/Fs/Keeps.antt =====
-- Invariants of the functions of src/kernel/fs/fs.c over `g_fs`: one rule for each way to build one.
use lux_kernel.Base.{ℕ, ◌≡◌, refl, Bool, true, false, Option, none, some, if◌then◌else◌, get_elem?}
use lux_kernel.Fs.{
  Fs, Sys, Outcome, ok, fail, fault, M, continue, ◌>>=◌, pure, failed, faulted, attempt, ignore,
  guard, get, put, found, inode,
}
use lux_kernel.Fs.Layout.{Inode}

-- From a state with `P`, `m` leads to one with `Q`, whatever its outcome.
pub record Leads {D A : Type 0} (P Q : Fs → Type 0) (m : M D A) : Type 0 where
  pub at : (s : Sys D) → P s.fs → Q (m s).1.fs

abbrev pub Keeps : {D A : Type 0} → (Fs → Type 0) → M D A → Type 0
Keeps P m = Leads P P m

-- What `m` returns, when it does.
pub record Returns {D A : Type 0} (R : A → Type 0) (m : M D A) : Type 0 where
  pub result : (s : Sys D) (a : A) → (m s).0 ≡ ok a → R a

module _ {D A : Type 0} {P : Fs → Type 0} where
  pub Keeps-pure : (a : A) → Keeps {D = D} P (pure a)
  unfolding pure
  Keeps-pure a = record { at = λ s h. h }

  pub Keeps-failed : Keeps {D = D} {A = A} P failed
  unfolding failed
  Keeps-failed = record { at = λ s h. h }

  pub Keeps-faulted : Keeps {D = D} {A = A} P faulted
  unfolding faulted
  Keeps-faulted = record { at = λ s h. h }

  pub Leads-if :
      {Q : Fs → Type 0} (test : Bool) (yes_part no_part : M D A)
      → (test ≡ true → Leads P Q yes_part)
      → (test ≡ false → Leads P Q no_part)
      → Leads P Q (if test then yes_part else no_part)
  Leads-if true y n on off = on refl
  Leads-if false y n on off = off refl

  pub Leads-attempt : {Q : Fs → Type 0} (m : M D A) → Leads P Q m → Leads P Q (attempt m)
  unfolding attempt
  Leads-attempt m k = record { at = k.at }

module _ {D : Type 0} {P : Fs → Type 0} where
  pub Keeps-guard : (b : Bool) → Keeps {D = D} P (guard b)
  unfolding guard pure failed
  Keeps-guard true = record { at = λ s h. h }
  Keeps-guard false = record { at = λ s h. h }

  pub Keeps-inode : (i : ℕ) → Keeps {D = D} P (inode i)
  unfolding inode pure faulted
  Keeps-inode i = record { at = λ s h. same (get_elem? s.fs.inodes i) s h }
    where
      same : (o : Option Inode) (s : Sys D) → P s.fs → P (found o s).1.fs
      same none s h = h
      same (some n) s h = h

  pub Leads-put : {Q : Fs → Type 0} (fs : Fs) → Q fs → Leads {D = D} P Q (put fs)
  unfolding put
  Leads-put fs h = record { at = λ s _. h }

module _ {D A B : Type 0} {Q R : Fs → Type 0} where
  Leads-continue :
      (o : Outcome A) (f : A → M D B)
      → ((fs : Fs) → R fs → Q fs)
      → ((a : A) → o ≡ ok a → Leads R Q (f a))
      → (s : Sys D) → R s.fs
      → Q (continue o f s).1.fs
  Leads-continue (ok a) f weak k s h = (k a refl).at s h
  Leads-continue fail f weak k s h = weak s.fs h
  Leads-continue fault f weak k s h = weak s.fs h

module _ {D A B : Type 0} {P Q R : Fs → Type 0} where
  pub Leads-bind :
      (m : M D A) (f : A → M D B)
      → ((fs : Fs) → R fs → Q fs)
      → Leads P R m
      → ((a : A) → Leads R Q (f a))
      → Leads P Q (m >>= f)
  unfolding ◌>>=◌
  Leads-bind m f weak km kf = record {
    at = λ s h. Leads-continue (m s).0 f weak (λ a _. kf a) (m s).1 (km.at s h);
  }

  -- The rest of the block may use what the call returned.
  pub Leads-bind_result :
      {T : A → Type 0} (m : M D A) (f : A → M D B)
      → ((fs : Fs) → R fs → Q fs)
      → Leads P R m
      → Returns T m
      → ((a : A) → T a → Leads R Q (f a))
      → Leads P Q (m >>= f)
  unfolding ◌>>=◌
  Leads-bind_result m f weak km result kf = record {
    at = λ s h.
        Leads-continue (m s).0 f weak (λ a e. kf a (result.result s a e)) (m s).1 (km.at s h);
  }

module _ {D A B : Type 0} {P : Fs → Type 0} where
  pub Keeps-bind :
      (m : M D A) (f : A → M D B) → Keeps P m → ((a : A) → Keeps P (f a)) → Keeps P (m >>= f)
  Keeps-bind m f km kf = Leads-bind m f (λ fs h. h) km kf

module _ {D B : Type 0} {P : Fs → Type 0} where
  pub Leads-get :
      {Q : Fs → Type 0} (f : Fs → M D B)
      → ((fs : Fs) → P fs → Leads P Q (f fs))
      → Leads P Q (get >>= f)
  unfolding ◌>>=◌ get
  Leads-get f k = record { at = λ s h. (k s.fs h).at s h }

pub Keeps-ignore : {D A : Type 0} {P : Fs → Type 0} (m : M D A) → Keeps P m → Keeps P (ignore m)
unfolding ignore
Keeps-ignore m k = Keeps-bind (attempt m) (λ _. pure tt) (Leads-attempt m k) (λ _. Keeps-pure tt)

module _ {D A B : Type 0} {P Q : Fs → Type 0} where
  pub Leads-elim :
      (o : Option A) (m : M D B) (f : A → M D B)
      → Leads P Q m
      → ((a : A) → Leads P Q (f a))
      → Leads {D = D} {A = B} P Q (elim o as (λ _. M D B) [ none ↦ m | some a ↦ f a ])
  Leads-elim none m f km kf = km
  Leads-elim (some a) m f km kf = kf a

module _ {D A : Type 0} {P Q R : Fs → Type 0} where
  pub Leads-weaken : (m : M D A) → ((fs : Fs) → P fs → R fs) → Leads R Q m → Leads P Q m
  Leads-weaken m weak k = record { at = λ s h. k.at s (weak s.fs h) }

module _ {D B : Type 0} {P Q : Fs → Type 0} where
  -- The state is the one that was read.
  pub Leads-get_same :
      (f : Fs → M D B) → ((fs : Fs) → P fs → Leads (λ x. x ≡ fs) Q (f fs)) → Leads P Q (get >>= f)
  unfolding ◌>>=◌ get
  Leads-get_same f k = record { at = λ s h. (k s.fs h).at s refl }
